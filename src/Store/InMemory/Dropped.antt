-- ===== src/Store/InMemory/Dropped.antt =====
-- DropByMsgId on a channel whose message ids are distinct.
use push_component.Base.{
  suc, ◌≡◌, refl, ap, inl, inr, Bool, false, not, List, [], ◌∷◌, some, GoString, string_Eq,
  str_eq_iff, get_or, Map, lookup, insert, length, select, elem, IsDistinct, All, arith,
  lookup-insert, Bool-cases,
}
use push_component.Protocol.Messages.{Notification}
use push_component.Store.Filter.{Metadata, filter_out_by_msg_id}
use push_component.Store.Filter.Drop.{msg_ids, filter_out_by_msg_id-without}
use push_component.Store.Filter.Obsolete.{Entry, zip, notifications_of, IsUnmarked}
use push_component.Store.InMemory.{Channel, zero_metadata, drop_in_channel, meta_by_id, meta_of}
use push_component.Store.InMemory.Views.{IsWellFormed, entries, notifications_of-zip}

lookup-meta_by_id :
    (k : GoString) (by_id : Map GoString Metadata) (ns : List Notification) (ms : List Metadata)
    → elem k (msg_ids ns) ≡ false
    → lookup k (meta_by_id by_id ns ms) ≡ lookup k by_id
unfolding meta_by_id
lookup-meta_by_id k by_id [] ms h = refl
lookup-meta_by_id k by_id (n ∷ ns) [] h = refl
lookup-meta_by_id k by_id (n ∷ ns) (m ∷ ms) h =
    ground
      (arith, lookup-meta_by_id k (insert n.msg_id m by_id) ns ms, lookup-insert n.msg_id k m by_id)

-- Every entry's metadata is found under its message id.
abbrev Finds : Map GoString Metadata → List Entry → Type 0
Finds by_id = All (λ e. lookup e.0.msg_id by_id ≡ some e.1)

Finds-meta_by_id :
    (by_id : Map GoString Metadata) (ns : List Notification) (ms : List Metadata)
    → IsDistinct (msg_ids ns)
    → Finds (meta_by_id by_id ns ms) (zip ns ms)
unfolding meta_by_id
Finds-meta_by_id by_id [] ms d = tt
Finds-meta_by_id by_id (n ∷ ns) [] d = tt
Finds-meta_by_id by_id (n ∷ ns) (m ∷ ms) d = (
  ground (
    arith,
    lookup-meta_by_id n.msg_id (insert n.msg_id m by_id) ns ms d.0,
    lookup-insert n.msg_id n.msg_id m by_id,
    str_eq_iff n.msg_id n.msg_id,
  ),
  Finds-meta_by_id (insert n.msg_id m by_id) ns ms d.1,
)

meta_of-select :
    (p : Notification → Bool) (by_id : Map GoString Metadata) (es : List Entry)
    → Finds by_id es
    → zip (select p (notifications_of es)) (meta_of by_id (select p (notifications_of es)))
      ≡ select (λ e. p e.0) es
unfolding meta_of
meta_of-select p by_id [] f = refl
meta_of-select p by_id ((n, m) ∷ es) f = elim (Bool-cases (p n)) [
  | inl e ↦ rw (e, f.0) (ap (◌∷◌ (n, m)) (meta_of-select p by_id es f.1))
  | inr e ↦ rw e (meta_of-select p by_id es f.1)
]

length-meta_of :
    (by_id : Map GoString Metadata) (ns : List Notification) → length ns ≡ length (meta_of by_id ns)
unfolding meta_of
length-meta_of by_id [] = refl
length-meta_of by_id (n ∷ ns) = ap suc (length-meta_of by_id ns)

-- Metadata from the map of an unmarked channel is unmarked, whichever ids it is asked for.
abbrev IsUnmarkedMap : Map GoString Metadata → Type 0
IsUnmarkedMap by_id = (k : GoString) → (get_or (lookup k by_id) zero_metadata).obsolete ≡ false

meta_by_id-IsUnmarkedMap :
    (by_id : Map GoString Metadata) (ns : List Notification) (ms : List Metadata)
    → IsUnmarkedMap by_id
    → IsUnmarked ms
    → IsUnmarkedMap (meta_by_id by_id ns ms)
unfolding meta_by_id
meta_by_id-IsUnmarkedMap by_id [] ms h u = h
meta_by_id-IsUnmarkedMap by_id (n ∷ ns) [] h u = h
meta_by_id-IsUnmarkedMap by_id (n ∷ ns) (m ∷ ms) h u =
    meta_by_id-IsUnmarkedMap (insert n.msg_id m by_id) ns ms
      (λ k. ground (arith, lookup-insert n.msg_id k m by_id, h k, u.0)) u.1

meta_of-IsUnmarked :
    (by_id : Map GoString Metadata) (ns : List Notification)
    → IsUnmarkedMap by_id
    → IsUnmarked (meta_of by_id ns)
unfolding meta_of
meta_of-IsUnmarked by_id [] h = tt
meta_of-IsUnmarked by_id (n ∷ ns) h = (h n.msg_id, meta_of-IsUnmarked by_id ns h)

empty_IsUnmarkedMap : IsUnmarkedMap []
unfolding lookup
empty_IsUnmarkedMap k = refl

-- Dropping keeps a channel well-formed, also where message ids repeat.
pub drop_in_channel-IsWellFormed :
    (targets : List Notification) (ch : Channel)
    → IsWellFormed ch
    → IsWellFormed (drop_in_channel targets ch)
unfolding drop_in_channel
drop_in_channel-IsWellFormed targets ch w =
    let by_id = meta_by_id [] ch.notifications ch.meta in
    let left = filter_out_by_msg_id ch.notifications targets in
    record {
      paired = length-meta_of by_id left;
      unmarked =
          meta_of-IsUnmarked by_id left
            (meta_by_id-IsUnmarkedMap [] ch.notifications ch.meta empty_IsUnmarkedMap w.unmarked);
    }

-- Dropping by message id from a well-formed channel with distinct message ids removes exactly the
-- entries whose id a target has, and leaves every other with its own metadata.
pub drop_in_channel-entries :
    (targets : List Notification) (ch : Channel)
    → IsWellFormed ch
    → IsDistinct (msg_ids ch.notifications)
    → entries (drop_in_channel targets ch)
      ≡ select (λ e. not (elem e.0.msg_id (msg_ids targets))) (entries ch)
unfolding drop_in_channel
drop_in_channel-entries targets ch w d =
    let found =
      meta_of-select (λ n. not (elem n.msg_id (msg_ids targets))) _ (entries ch)
        (Finds-meta_by_id [] ch.notifications ch.meta d) in
    rw (filter_out_by_msg_id-without ch.notifications targets d)
      (rw (notifications_of-zip ch.notifications ch.meta w.paired) at found)
