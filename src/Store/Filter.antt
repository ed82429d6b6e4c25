-- ===== src/Store/Filter.antt =====
-- server/store/store.go: metadata, and the two filters over pending notifications. Time is a number
-- of nanoseconds, and time.Now() an argument.
pub mod Drop
pub mod Obsolete
use push_component.Base.{
  ℕ, zero, suc, ◌-◌, ◌+◌, Bool, true, false, not, ◌&&◌, List, [], ◌∷◌, ◌++◌, Option, none, some,
  GoString, string_Eq, pair_Eq, str_eq, length, drop, get_elem?, get_or, replicate, select, ltb,
  leb, if◌then◌else◌, Map, lookup, insert,
}
use push_component.Protocol.Messages.{Notification, zero_notification}

pub record Metadata : Type 0 where
  pub expiration : ℕ
  pub replace_tag : GoString
  pub obsolete : Bool

-- Metadata.Before
abbrev pub before : Metadata → ℕ → Bool
before m now = ltb m.expiration now

-- targets[i].MsgId == orig[i].MsgId; the callers stay within both lengths.
same_at : ℕ → List Notification → List Notification → Bool
same_at i targets orig = elim (get_elem? targets i) [
  | none ↦ false
  | some t ↦ elim (get_elem? orig i) [ none ↦ false | some o ↦ str_eq t.msg_id o.msg_id ]
]

-- The loop of the common case, from `i` down to 1: whether it reaches 0.
same_down_from : ℕ → List Notification → List Notification → Bool
unfolding same_at
same_down_from zero targets orig = true
same_down_from (suc i) targets orig =
    let rest = same_down_from i targets orig in if same_at (suc i) targets orig then rest else false

-- The set of the message ids of `targets`.
target_ids : Map GoString Bool → List Notification → Map GoString Bool
target_ids ids [] = ids
target_ids ids (t ∷ ts) = target_ids (insert t.msg_id true ids) ts

not_targeted : Map GoString Bool → Notification → Bool
not_targeted ids n = not (get_or (lookup n.msg_id ids) false)

-- FilterOutByMsgId
unfoldable pub filter_out_by_msg_id : List Notification → List Notification → List Notification
unfolding same_at same_down_from target_ids not_targeted
filter_out_by_msg_id orig targets =
    if (ltb 0 (length targets) && leb (length targets) (length orig))
      && (same_at 0 targets orig && same_down_from (length targets - 1) targets orig)
    then drop (length targets) orig
    else select (not_targeted (target_ids [] targets)) orig

-- The backward walk of FilterOutObsolete: the tags seen, the metadata as marked, and the count.
pub record Walk : Type 0 where
  pub seen_tags : Map (GoString × GoString) Bool
  pub marked : List Metadata
  pub kept : ℕ

abbrev pub is_empty : GoString → Bool
is_empty s = str_eq s []

-- One round of the walk, for the metadata `m` of the notification `n`.
pub walk_step : ℕ → Notification → Metadata → Walk → Walk
walk_step now n m w =
    if before m now
    then record w { marked = record m { obsolete = true } ∷ w.marked }
    else if is_empty m.replace_tag
    then record w { marked = m ∷ w.marked; kept = w.kept + 1 }
    else if get_or (lookup (n.app_id, m.replace_tag) w.seen_tags) false
    then record w { marked = record m { obsolete = true } ∷ w.marked }
    else record {
      seen_tags = insert (n.app_id, m.replace_tag) true w.seen_tags;
      marked = m ∷ w.marked;
      kept = w.kept + 1;
    }

-- The walk goes from the last entry to the first. A missing notification, where the source panics
-- on a tagged entry, is the zero one here; the store keeps the two lists at one length.
pub walk : ℕ → List Notification → List Metadata → Walk
unfolding walk_step
walk now ns [] = record { seen_tags = []; marked = []; kept = 0 }
walk now [] (m ∷ ms) = walk_step now zero_notification m (walk now [] ms)
walk now (n ∷ ns) (m ∷ ms) = walk_step now n m (walk now ns ms)

-- The loop that copies what is not marked.
pub copy_kept : List Notification → List Metadata → List Notification
copy_kept ns [] = []
copy_kept [] (m ∷ ms) = []
copy_kept (n ∷ ns) (m ∷ ms) = let rest = copy_kept ns ms in if m.obsolete then rest else n ∷ rest

-- FilterOutObsolete: the result has the length that was counted, and the metadata are marked in
-- place.
unfoldable pub filter_out_obsolete :
    ℕ → List Notification → List Metadata → List Notification × List Metadata
unfolding walk copy_kept
filter_out_obsolete now ns ms =
    let w = walk now ns ms in
    let copied = copy_kept ns w.marked in
    (copied ++ replicate (w.kept - length copied) zero_notification, w.marked)
