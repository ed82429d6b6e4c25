-- ===== src/Client/Once.antt =====
-- client/session with the seen ids in memory (seenstate.go): how often a unicast notification is
-- passed on. The state in a database (sqlseenstate.go), which forgets older ids, is not modelled.
use push_component.Base.{
  ◌≡◌, refl, inl, inr, Bool, true, false, ◌||◌, List, [], ◌∷◌, ◌++◌, map, Option, none, some,
  GoString, string_Eq, str_eq, str_eq_iff, Map, insert, lookup-insert, elem, All, All-append,
  IsDistinct, arith, Bool-cases, Option-cases,
}
use mathlib.Core.List.{map-append}
use push_component.Client.Session.{running}
use push_component.Protocol.Messages.{Notification}
use push_component.Client.SeenState.{MemSeenState, mem_seen_state, is_seen, filter_seen}
use push_component.Client.Messages.{
  ServerMsg, AddressedNotification, Receiver, addressed, handle_ping, handle_broadcast,
  handle_notifications, handle_conn_broken, handle_set_params, dispatch, rounds, loop,
}

abbrev ids : List Notification → List GoString
ids = map (λ n. n.msg_id)

abbrev pub passed_on : {App : Type 0} → List (AddressedNotification App) → List GoString
passed_on = map (λ a. a.notification.msg_id)

HasSeen : Map GoString Bool → List GoString → Type 0
HasSeen seen = All (λ i. is_seen i seen ≡ true)

IsUnseen : Map GoString Bool → List GoString → Type 0
IsUnseen seen = All (λ i. is_seen i seen ≡ false)

is_seen-insert :
    (i j : GoString) (seen : Map GoString Bool)
    → is_seen j (insert i true seen) ≡ (str_eq i j || is_seen j seen)
is_seen-insert i j seen = ground (arith, lookup-insert i j true seen)

-- What was seen stays so.
filter_seen_mono :
    (ns : List Notification) (seen : Map GoString Bool) (i : GoString)
    → is_seen i seen ≡ true
    → is_seen i (filter_seen ns seen).0 ≡ true
unfolding filter_seen
filter_seen_mono [] seen i h = h
filter_seen_mono (n ∷ ns) seen i h = elim (Bool-cases (is_seen n.msg_id seen)) [
  | inl old ↦ rw old (filter_seen_mono ns seen i h)
  | inr new ↦ rw new (
      filter_seen_mono ns (insert n.msg_id true seen) i
        (ground (arith, h, is_seen-insert n.msg_id i seen)))
]

elem-unseen :
    (i : GoString) (seen : Map GoString Bool) (is : List GoString)
    → is_seen i seen ≡ true
    → IsUnseen seen is
    → elem i is ≡ false
unfolding IsUnseen
elem-unseen i seen [] h u = refl
elem-unseen i seen (j ∷ is) h u = ground (arith, elem-unseen i seen is h u.1, str_eq_iff j i)

weaker :
    (i : GoString) (seen : Map GoString Bool) (is : List GoString)
    → IsUnseen (insert i true seen) is
    → IsUnseen seen is
unfolding IsUnseen
weaker i seen [] u = tt
weaker i seen (j ∷ is) u = (ground (arith, u.0, is_seen-insert i j seen), weaker i seen is u.1)

-- What FilterBySeen keeps was not seen before, is seen after, and has no id twice.
filter_seen_lem :
    (ns : List Notification) (seen : Map GoString Bool)
    → HasSeen (filter_seen ns seen).0 (ids (filter_seen ns seen).1)
      × IsUnseen seen (ids (filter_seen ns seen).1)
      × IsDistinct (ids (filter_seen ns seen).1)
unfolding filter_seen HasSeen IsUnseen
filter_seen_lem [] seen = (tt, tt, tt)
filter_seen_lem (n ∷ ns) seen = elim (Bool-cases (is_seen n.msg_id seen)) [
  | inl old ↦ rw old (filter_seen_lem ns seen)
  | inr new ↦
      let marked : Map GoString Bool = insert n.msg_id true seen in
      let (kept, unseen, distinct) = filter_seen_lem ns marked in
      let now_seen : is_seen n.msg_id marked ≡ true =
        ground (arith, is_seen-insert n.msg_id n.msg_id seen, str_eq_iff n.msg_id n.msg_id) in
      rw new (
        (filter_seen_mono ns marked n.msg_id now_seen, kept),
        (new, weaker n.msg_id seen _ unseen),
        (elem-unseen n.msg_id marked _ now_seen unseen, distinct),
      )
]

IsDistinct-append :
    (seen : Map GoString Bool) (xs ys : List GoString)
    → HasSeen seen xs
    → IsUnseen seen ys
    → IsDistinct xs
    → IsDistinct ys
    → IsDistinct (xs ++ ys)
unfolding HasSeen
IsDistinct-append seen [] ys h u d e = e
IsDistinct-append seen (x ∷ xs) ys h u d e = (
  elem-append x xs ys d.0 (elem-unseen x seen ys h.0 u),
  IsDistinct-append seen xs ys h.1 u d.1 e,
)
  where
    elem-append :
        (x : GoString) (xs ys : List GoString)
        → elem x xs ≡ false
        → elem x ys ≡ false
        → elem x (xs ++ ys) ≡ false
    elem-append x [] ys a b = b
    elem-append x (z ∷ xs) ys a b = ground (arith, elem-append x xs ys)

HasSeen-mono :
    (ns : List Notification) (seen : Map GoString Bool) (is : List GoString)
    → HasSeen seen is
    → HasSeen (filter_seen ns seen).0 is
unfolding HasSeen
HasSeen-mono ns seen [] h = tt
HasSeen-mono ns seen (i ∷ is) h = (filter_seen_mono ns seen i h.0, HasSeen-mono ns seen is h.1)

module _ {V App : Type 0} (unmarshal : GoString → Option V)
    (check_for_addressee : Notification → Option App) where
  abbrev addressed_ids : List Notification → List GoString
  addressed_ids ns =
      passed_on
        (addressed {S = MemSeenState} {V = V} mem_seen_state unmarshal check_for_addressee ns)

  addressed-All {ℓ} :
      (P : GoString → Type ℓ) (ns : List Notification) → All P (ids ns) → All P (addressed_ids ns)
  unfolding addressed
  addressed-All P [] h = tt
  addressed-All P (n ∷ ns) h = elim (Option-cases (check_for_addressee n)) [
    | inl nobody ↦ rw (All, nobody) (addressed-All P ns h.1)
    | inr (app, e) ↦ rw (All, e) (h.0, addressed-All P ns h.1)
  ]

  elem-addressed :
      (i : GoString) (ns : List Notification)
      → elem i (ids ns) ≡ false
      → elem i (addressed_ids ns) ≡ false
  unfolding addressed
  elem-addressed i [] h = refl
  elem-addressed i (n ∷ ns) h = elim (Option-cases (check_for_addressee n)) [
    | inl nobody ↦ rw (elem, nobody) (elem-addressed i ns (ground (arith, h)))
    | inr (app, e) ↦ rw (elem, e) (ground (arith, h, elem-addressed i ns))
  ]

  addressed-IsDistinct :
      (ns : List Notification) → IsDistinct (ids ns) → IsDistinct (addressed_ids ns)
  unfolding addressed
  addressed-IsDistinct [] d = tt
  addressed-IsDistinct (n ∷ ns) d = elim (Option-cases (check_for_addressee n)) [
    | inl nobody ↦ rw (IsDistinct, nobody) (addressed-IsDistinct ns d.1)
    | inr (app, e) ↦
        rw (IsDistinct, e) (elem-addressed n.msg_id ns d.0, addressed-IsDistinct ns d.1)
  ]

  -- What has been passed on has been seen, and has no message id twice.
  unfoldable pub IsOnce : Receiver MemSeenState V App → Type 0
  unfolding HasSeen
  IsOnce r =
      HasSeen r.seen.seen_msgs (passed_on r.notifications_ch)
      × IsDistinct (passed_on r.notifications_ch)

  notifications-IsOnce :
      (recv : ServerMsg) (writes : Bool) (r : Receiver MemSeenState V App)
      → IsOnce r
      → IsOnce (handle_notifications mem_seen_state unmarshal check_for_addressee recv writes r).0
  unfolding handle_notifications IsOnce HasSeen IsUnseen
  notifications-IsOnce recv writes r (seen, distinct) =
      let (kept, unseen, fresh) = filter_seen_lem recv.notifications r.seen.seen_msgs in
      let ns : List Notification = (filter_seen recv.notifications r.seen.seen_msgs).1 in
      let still = HasSeen-mono recv.notifications r.seen.seen_msgs _ seen in
      elim (Bool-cases writes) [
        | inl sent ↦
            rw (sent, map-append (λ (a : AddressedNotification App). a.notification.msg_id))
              (
                All-append _ (passed_on r.notifications_ch) (addressed_ids ns) still
                    (addressed-All _ ns kept),
                IsDistinct-append r.seen.seen_msgs (passed_on r.notifications_ch) (addressed_ids ns)
                    seen (addressed-All _ ns unseen) distinct (addressed-IsDistinct ns fresh),
              )
        | inr failed ↦ rw failed (still, distinct)
      ]

  dispatch-IsOnce :
      (recv : ServerMsg) (writes : Bool) (r : Receiver MemSeenState V App)
      → IsOnce r
      → IsOnce (dispatch mem_seen_state unmarshal check_for_addressee recv writes r).0
  unfolding dispatch handle_ping handle_broadcast handle_conn_broken handle_set_params IsOnce
      HasSeen
  dispatch-IsOnce recv writes r once = ground (arith, notifications-IsOnce recv writes r once, once)

  rounds-IsOnce :
      (incoming : List (Option ServerMsg × Bool)) (r : Receiver MemSeenState V App)
      → IsOnce r
      → IsOnce (rounds mem_seen_state unmarshal check_for_addressee incoming r).0
  unfolding rounds IsOnce
  rounds-IsOnce [] r once = once
  rounds-IsOnce ((none, writes) ∷ incoming) r once = once
  rounds-IsOnce ((some recv, writes) ∷ incoming) r once =
      let next = dispatch mem_seen_state unmarshal check_for_addressee recv writes r in
      elim (Bool-cases next.1) [
        | inl goes_on ↦
            rw goes_on (rounds-IsOnce incoming next.0 (dispatch-IsOnce recv writes r once))
        | inr ended ↦ rw ended (dispatch-IsOnce recv writes r once)
      ]

  -- A session that keeps the ids it has seen in memory, as it does where no path of a database is
  -- configured. It reads any messages, with any of its answers lost, and passes on no message id
  -- twice, if what it has passed on so far is marked as seen and has no id twice: not a notification
  -- that stands twice in a message, nor one that the server sends again because it did not get the
  -- acknowledgement.
  pub loop-IsOnce :
      (incoming : List (Option ServerMsg × Bool)) (r : Receiver MemSeenState V App)
      → IsOnce r
      → IsOnce (loop mem_seen_state unmarshal check_for_addressee incoming r).0
  unfolding loop IsOnce
  loop-IsOnce incoming r once =
      rounds-IsOnce incoming (record r { session = record r.session { state = running } }) once
