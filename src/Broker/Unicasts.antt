-- ===== src/Broker/Unicasts.antt =====
-- Unicast notifications from the store to a device and out of the store.
use push_component.Base.{
  ℕ, ◌≡◌, ◌≢◌, refl, ap, ◌∙◌, inl, inr, Bool, false, not, List, [], ◌∷◌, ◌++◌, some, GoString,
  string_Eq, str_eq_iff, lookup, arith, Bool-cases, elem, IsDistinct, select,
}
use push_component.Base.Results.{ok}
use push_component.Protocol.Messages.{Notification}
use push_component.Store.Filter.{Metadata, before}
use push_component.Store.Filter.Drop.{msg_ids, without, without_head}
use push_component.Store.Filter.Obsolete.{
  Entry, notifications_of, live_entries, is_obsolete, tagged,
}
use push_component.Store.InMemory.{
  Channel, Store, get_channel_snapshot, drop_by_msg_id, drop_in_channel,
}
use push_component.Store.InMemory.Views.{entries, notifications_of-zip}
use push_component.Store.InMemory.Dropped.{drop_in_channel-entries}
use push_component.Store.InMemory.Levels.{lookup-insert_self}
use push_component.Store.InMemory.Invariant.{
  IsConsistent, channel_at, get_channel_snapshot-live_entries, drop_by_msg_id-IsConsistent,
}
use push_component.Broker.Session.{UnicastExchange, BrokerSession}
use push_component.Broker.Exchanges.{acked_unicast}

pub snapshot_of :
    (now : ℕ) (k : GoString) (sto : Store) (ch : Channel)
    → IsConsistent sto
    → lookup k sto ≡ some ch
    → get_channel_snapshot now k sto
      ≡ (ch.top_level, notifications_of (live_entries now (entries ch)))
snapshot_of now k sto ch c found =
    let is : channel_at k sto ≡ ch = rw found in
    rw (get_channel_snapshot-live_entries now k sto c, is)

-- The snapshot after dropping from a channel with distinct message ids.
snapshot_after :
    (now : ℕ) (k : GoString) (targets : List Notification) (sto : Store) (ch : Channel)
    → IsConsistent sto
    → lookup k sto ≡ some ch
    → IsDistinct (msg_ids ch.notifications)
    → get_channel_snapshot now k (drop_by_msg_id k targets sto) ≡ (
      ch.top_level,
      notifications_of
          (live_entries now (select (λ e. not (elem e.0.msg_id (msg_ids targets))) (entries ch))),
    )
unfolding drop_by_msg_id drop_in_channel
snapshot_after now k targets sto ch c found d =
    let sto' = drop_by_msg_id k targets sto in
    let found' : lookup k sto' ≡ some (drop_in_channel targets ch) =
      rw (drop_by_msg_id, found) (lookup-insert_self k _ sto) in
    let left = drop_in_channel-entries targets ch (c k ch found) d in
    snapshot_of now k sto' (drop_in_channel targets ch)
      (drop_by_msg_id-IsConsistent k targets sto c) found'
    ∙ ap (λ es. (ch.top_level, notifications_of (live_entries now es))) left

-- No entry has expired at the time, and none is replaced by a later one.
abbrev pub NoneObsolete : ℕ → List Entry → Type 0
NoneObsolete now [] = Unit
NoneObsolete now (e ∷ es) = (is_obsolete now e es ≡ false) × NoneObsolete now es

pub live_entries_all : (now : ℕ) (es : List Entry) → NoneObsolete now es → live_entries now es ≡ es
unfolding live_entries
live_entries_all now [] h = refl
live_entries_all now (e ∷ es) h = rw h.0 (ap (◌∷◌ e) (live_entries_all now es h.1))

tagged-select :
    (p : Entry → Bool) (now : ℕ) (app tag : GoString) (es : List Entry)
    → tagged now app tag es ≡ false
    → tagged now app tag (select p es) ≡ false
unfolding tagged
tagged-select p now app tag [] h = refl
tagged-select p now app tag ((n, m) ∷ es) h = ground (arith, tagged-select p now app tag es)

pub select-NoneObsolete :
    (p : Entry → Bool) (now : ℕ) (es : List Entry)
    → NoneObsolete now es
    → NoneObsolete now (select p es)
unfolding is_obsolete
select-NoneObsolete p now [] h = tt
select-NoneObsolete p now ((n, m) ∷ es) h = elim (Bool-cases (p (n, m))) [
  | inl e ↦ rw e (still, select-NoneObsolete p now es h.1)
  | inr e ↦ rw e (select-NoneObsolete p now es h.1)
]
  where
    still : is_obsolete now (n, m) (select p es) ≡ false
    still = ground (arith, tagged-select p now n.app_id m.replace_tag es, h.0)

notifications_of-select :
    (p : Notification → Bool) (es : List Entry)
    → notifications_of (select (λ e. p e.0) es) ≡ select p (notifications_of es)
notifications_of-select p [] = refl
notifications_of-select p ((n, m) ∷ es) = ground (arith, notifications_of-select p es)

accepted :
    (x : UnicastExchange) (sess : BrokerSession) (sto sto' : Store)
    → acked_unicast x sto sess ≡ ok sto'
    → drop_by_msg_id x.chan_id sess.scratch.notifications_msg.notifications.elems sto ≡ sto'
unfolding acked_unicast
accepted x sess sto sto' h = ground arith

-- Delivery in parts. Where no two notifications of the channel share a message id, and none has
-- expired or been replaced, a device that acknowledges the first part of a snapshot is left, at the
-- same time, with a snapshot of exactly the rest, at the same level.
acked_unicast-snapshot :
    (now : ℕ) (x : UnicastExchange) (sess : BrokerSession) (sent rest : List Notification)
    (sto sto' : Store) (ch : Channel)
    → IsConsistent sto
    → lookup x.chan_id sto ≡ some ch
    → ch.notifications ≡ sent ++ rest
    → IsDistinct (msg_ids ch.notifications)
    → NoneObsolete now (entries ch)
    → sess.scratch.notifications_msg.notifications.elems ≡ sent
    → acked_unicast x sto sess ≡ ok sto'
    → (get_channel_snapshot now x.chan_id sto ≡ (ch.top_level, sent ++ rest))
      × (get_channel_snapshot now x.chan_id sto' ≡ (ch.top_level, rest))
unfolding acked_unicast
acked_unicast-snapshot now x sess sent rest sto sto' ch c found whole d fresh msg h = (
  snapshot_of now x.chan_id sto ch c found
      ∙ ap (λ es. (ch.top_level, notifications_of es)) (live_entries_all now (entries ch) fresh)
      ∙ ap (λ ns. (ch.top_level, ns)) (names ∙ whole),
  rw (← dropped) (
      snapshot_after now x.chan_id sent sto ch c found d
      ∙ ap (λ es. (ch.top_level, notifications_of es))
          (live_entries_all now left (select-NoneObsolete kept now (entries ch) fresh))
      ∙ ap (λ ns. (ch.top_level, ns)) remain),
)
  where
    kept : Entry → Bool
    kept e = not (elem e.0.msg_id (msg_ids sent))

    left : List Entry
    left = select kept (entries ch)

    names : notifications_of (entries ch) ≡ ch.notifications
    names = notifications_of-zip ch.notifications ch.meta (c x.chan_id ch found).paired

    parts : IsDistinct (msg_ids (sent ++ rest))
    parts = rw (← whole) d

    remain : notifications_of left ≡ rest
    remain =
        notifications_of-select (λ n. not (elem n.msg_id (msg_ids sent))) (entries ch)
        ∙ ap (without (msg_ids sent)) (names ∙ whole)
        ∙ without_head sent rest parts

    dropped : drop_by_msg_id x.chan_id sent sto ≡ sto'
    dropped = rw (← msg) (accepted x sess sto sto' h)

-- Two pending notifications of one application and one replace tag, neither expired. The snapshot
-- has the second alone. Once the device has that one and it is dropped by its message id, the next
-- snapshot has the first: a notification that was replaced is delivered after all.
pub replaced_notification_revived :
    (now : ℕ) (k : GoString) (old new : Notification) (m m' : Metadata) (level : ℕ) (sto : Store)
    → IsConsistent sto
    → lookup k sto
      ≡ some (record { top_level = level; notifications = old ∷ new ∷ []; meta = m ∷ m' ∷ [] })
    → new.app_id ≡ old.app_id
    → m'.replace_tag ≡ m.replace_tag
    → m.replace_tag ≢ []
    → before m now ≡ false
    → before m' now ≡ false
    → new.msg_id ≢ old.msg_id
    → (get_channel_snapshot now k sto ≡ (level, new ∷ []))
      × (get_channel_snapshot now k (drop_by_msg_id k (new ∷ []) sto) ≡ (level, old ∷ []))
unfolding live_entries tagged
replaced_notification_revived now k old new m m' level sto c found app tag some_tag fresh fresh'
      ids =
    (
      snapshot_of now k sto _ c found ∙ ap (λ es. (level, notifications_of es)) replaced,
      snapshot_after now k (new ∷ []) sto _ c found distinct
          ∙ ap (λ es. (level, notifications_of es)) revived,
    )
  where
    distinct : IsDistinct (old.msg_id ∷ new.msg_id ∷ [])
    distinct = ground (arith, str_eq_iff new.msg_id old.msg_id)

    replaced : live_entries now ((old, m) ∷ (new, m') ∷ []) ≡ (new, m') ∷ []
    replaced = ground (
      arith,
      str_eq_iff new.app_id old.app_id,
      str_eq_iff m'.replace_tag m.replace_tag,
      str_eq_iff m.replace_tag [],
    )

    revived :
        live_entries now (
          select
            (λ (e : Entry). not (elem e.0.msg_id (msg_ids (new ∷ []))))
            ((old, m) ∷ (new, m') ∷ []))
        ≡ (old, m) ∷ []
    revived = ground (arith, str_eq_iff new.msg_id old.msg_id, str_eq_iff new.msg_id new.msg_id)
