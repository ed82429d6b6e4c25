-- ===== src/Store/Filter/Drop.antt =====
-- FilterOutByMsgId against a plain filter.
use push_component.Base.{
  ℕ, zero, suc, ◌-◌, ◌<◌, ◌≤◌, ◌≡◌, refl, sym, subst, dec_lt, Bool, true, false, not, ◌||◌, List,
  [], ◌∷◌, ◌++◌, GoString, string_Eq, str_eq_iff, length, drop, take, get_or, select, Map, elem,
  IsDistinct, arith, take-append-drop, lookup, insert, lookup-insert,
}
use push_component.Protocol.Messages.{Notification}
use push_component.Store.Filter.{
  same_at, same_down_from, target_ids, not_targeted, filter_out_by_msg_id,
}

abbrev pub msg_ids : List Notification → List GoString
msg_ids [] = []
msg_ids (n ∷ ns) = n.msg_id ∷ msg_ids ns

-- The notifications whose message id is not in a list.
abbrev pub without : List GoString → List Notification → List Notification
without ids = select (λ n. not (elem n.msg_id ids))

target_ids_lem :
    (k : GoString) (ids : Map GoString Bool) (ts : List Notification)
    → get_or (lookup k (target_ids ids ts)) false
      ≡ (elem k (msg_ids ts) || get_or (lookup k ids) false)
unfolding target_ids
target_ids_lem k ids [] = refl
target_ids_lem k ids (t ∷ ts) = ground (
  arith,
  target_ids_lem k (insert t.msg_id true ids) ts,
  lookup-insert t.msg_id k true ids,
  str_eq_iff t.msg_id k,
)

-- The slow way is the plain filter.
select-not_targeted :
    (ts ns : List Notification)
    → select (not_targeted (target_ids [] ts)) ns ≡ without (msg_ids ts) ns
unfolding not_targeted lookup
select-not_targeted ts [] = refl
select-not_targeted ts (n ∷ ns) =
    ground (arith, target_ids_lem n.msg_id [] ts, select-not_targeted ts ns)

same_down_from_lem :
    (k j : ℕ) (ts ns : List Notification)
    → same_at 0 ts ns ≡ true
    → same_down_from k ts ns ≡ true
    → j ≤ k
    → same_at j ts ns ≡ true
unfolding same_down_from
same_down_from_lem zero zero ts ns h d l = h
same_down_from_lem zero (suc j) ts ns h d l = absurd (omega arith)
same_down_from_lem (suc k) j ts ns h d l =
    let here : same_at (suc k) ts ns ≡ true = ground arith in
    let below : same_down_from k ts ns ≡ true = ground arith in
    elim (dec_lt k j) [
      | yes past ↦ subst (λ i. same_at i ts ns ≡ true) (omega arith) here
      | no within ↦ same_down_from_lem k j ts ns h below (omega arith)
    ]

msg_ids-take :
    (ts ns : List Notification)
    → ((j : ℕ) → j < length ts → same_at j ts ns ≡ true)
    → msg_ids ts ≡ msg_ids (take (length ts) ns)
unfolding same_at
msg_ids-take [] ns h = refl
msg_ids-take (t ∷ ts) [] h = let no_match = h 0 (omega arith) in cc
msg_ids-take (t ∷ ts) (n ∷ ns) h =
    let rest : msg_ids ts ≡ msg_ids (take (length ts) ns) =
      msg_ids-take ts ns (λ j l. h (suc j) (omega arith)) in
    ground (arith, rest, h 0 (omega arith), str_eq_iff t.msg_id n.msg_id)

-- What the ids of a list's head do to the whole list, where no id occurs twice.
without-append :
    (ids : List GoString) (xs ys : List Notification)
    → without ids (xs ++ ys) ≡ without ids xs ++ without ids ys
without-append ids [] ys = refl
without-append ids (x ∷ xs) ys = ground (arith, without-append ids xs ys)

elem-msg_ids-append :
    (k : GoString) (xs ys : List Notification)
    → elem k (msg_ids (xs ++ ys)) ≡ (elem k (msg_ids xs) || elem k (msg_ids ys))
elem-msg_ids-append k [] ys = refl
elem-msg_ids-append k (x ∷ xs) ys = ground (arith, elem-msg_ids-append k xs ys)

-- Removing by one id more, where no notification has it.
without_cons :
    (k : GoString) (ids : List GoString) (ns : List Notification)
    → elem k (msg_ids ns) ≡ false
    → without (k ∷ ids) ns ≡ without ids ns
without_cons k ids [] h = refl
without_cons k ids (n ∷ ns) h =
    ground (arith, without_cons k ids ns, str_eq_iff k n.msg_id, str_eq_iff n.msg_id k)

without_nil : (ns : List Notification) → without [] ns ≡ ns
without_nil [] = refl
without_nil (n ∷ ns) = ground (arith, without_nil ns)

pub without_head :
    (xs ys : List Notification)
    → IsDistinct (msg_ids (xs ++ ys))
    → without (msg_ids xs) (xs ++ ys) ≡ ys
without_head [] ys h = without_nil ys
without_head (x ∷ xs) ys h = ground (
  arith,
  without_cons x.msg_id (msg_ids xs) (xs ++ ys) h.0,
  without_head xs ys h.1,
  str_eq_iff x.msg_id x.msg_id,
)

-- The shortcut, where its tests pass.
shortcut :
    (orig targets : List Notification)
    → IsDistinct (msg_ids orig)
    → same_at 0 targets orig ≡ true
    → same_down_from (length targets - 1) targets orig ≡ true
    → drop (length targets) orig ≡ without (msg_ids targets) orig
shortcut orig targets distinct first down =
    let n : ℕ = length targets in
    let ids : msg_ids targets ≡ msg_ids (take n orig) =
      msg_ids-take targets orig
        (λ j l. same_down_from_lem (n - 1) j targets orig first down (omega arith)) in
    let whole = take-append-drop n orig in
    let parts : IsDistinct (msg_ids (take n orig ++ drop n orig)) = rw whole distinct in
    let removed = rw whole at (without_head (take n orig) (drop n orig) parts) in
    rw ids (sym removed)

-- FilterOutByMsgId returns the notifications whose message id no target has, in order, for any
-- targets, as long as no two of the notifications share a message id: the shortcut for a head of
-- the list makes no difference then.
pub filter_out_by_msg_id-without :
    (orig targets : List Notification)
    → IsDistinct (msg_ids orig)
    → filter_out_by_msg_id orig targets ≡ without (msg_ids targets) orig
unfolding filter_out_by_msg_id
filter_out_by_msg_id-without orig targets distinct =
    ground (arith, select-not_targeted targets orig, shortcut orig targets distinct)
