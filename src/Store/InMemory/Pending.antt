-- ===== src/Store/InMemory/Pending.antt =====
-- What a device still gets after a new unicast notification.
use push_component.Base.{
  ℕ, ◌<◌, ◌≡◌, refl, ap, ◌∙◌, false, not, List, [], ◌∷◌, ◌++◌, GoString, string_Eq, insert, length,
  select, arith,
}
use push_component.Base.Int64.{modulus, add64}
use push_component.Protocol.Messages.{Notification}
use push_component.Store.Filter.{Metadata, before}
use push_component.Store.Filter.Obsolete.{Entry, zip, notifications_of, live_entries}
use push_component.Store.InMemory.{
  Channel, Store, append_to, append_to_unicast_channel, get_channel_snapshot,
}
use push_component.Store.InMemory.Views.{entries}
use push_component.Store.InMemory.Appended.{replaced_by, live_entries-append}
use push_component.Store.InMemory.Invariant.{
  IsConsistent, channel_at, get_channel_snapshot-live_entries, append_to-IsConsistent,
  channel_at-IsWellFormed,
}
use push_component.Store.InMemory.Levels.{lookup-insert_self, level_of}

pub zip-append :
    (ns : List Notification) (ms : List Metadata) (n : Notification) (m : Metadata)
    → length ns ≡ length ms
    → zip (ns ++ n ∷ []) (ms ++ m ∷ []) ≡ zip ns ms ++ (n, m) ∷ []
zip-append [] [] n m h = refl
zip-append [] (m' ∷ ms) n m h = absurd (omega arith)
zip-append (n' ∷ ns) [] n m h = absurd (omega arith)
zip-append (n' ∷ ns) (m' ∷ ms) n m h = ap (◌∷◌ (n', m')) (zip-append ns ms n m (omega arith))

notifications_of-append :
    (es : List Entry) (n : Notification) (m : Metadata)
    → notifications_of (es ++ (n, m) ∷ []) ≡ notifications_of es ++ n ∷ []
notifications_of-append [] n m = refl
notifications_of-append ((n', m') ∷ es) n m = ap (◌∷◌ n') (notifications_of-append es n m)

-- A unicast notification that has not expired is the last of the channel's next snapshot, whatever
-- was pending. Before it stands what counted already, in order, but for the notifications that it
-- replaces: those of its application with its replace tag, if it has one. The level stays.
pub append_to_unicast_channel-snapshot :
    (now : ℕ) (k app_id payload msg_id : GoString) (meta : Metadata) (sto : Store)
    → IsConsistent sto
    → meta.obsolete ≡ false
    → before meta now ≡ false
    → level_of k sto < modulus
    → let new : Notification = record { app_id = app_id; msg_id = msg_id; payload = payload } in
      get_channel_snapshot now k (append_to_unicast_channel k app_id payload msg_id meta sto) ≡ (
        level_of k sto,
        notifications_of (
              select
                (λ e. not (replaced_by (new, meta) e))
                (live_entries now (entries (channel_at k sto))))
            ++ new ∷ [],
      )
unfolding append_to_unicast_channel append_to
append_to_unicast_channel-snapshot now k app_id payload msg_id meta sto c unmarked fresh bound =
    get_channel_snapshot-live_entries now k sto'
      (append_to-IsConsistent k new 0 meta sto unmarked c)
    ∙ ap (λ ch. (ch.top_level, notifications_of (live_entries now (entries ch)))) there
    ∙ ap (λ l. (l, notifications_of (live_entries now (entries next)))) same_level
    ∙ ap (λ es. (level_of k sto, notifications_of (live_entries now es)))
        (zip-append prev.notifications prev.meta new meta (channel_at-IsWellFormed k sto c).paired)
    ∙ ap (λ es. (level_of k sto, notifications_of es))
        (live_entries-append now (entries prev) (new, meta) fresh)
    ∙ ap (λ ns. (level_of k sto, ns)) (notifications_of-append _ new meta)
  where
    new : Notification
    new = record { app_id = app_id; msg_id = msg_id; payload = payload }

    prev : Channel
    prev = channel_at k sto

    next : Channel
    next = record {
      top_level = add64 prev.top_level 0;
      notifications = prev.notifications ++ new ∷ [];
      meta = prev.meta ++ meta ∷ [];
    }

    sto' : Store
    sto' = insert k next sto

    there : channel_at k sto' ≡ next
    there = rw (lookup-insert_self k next sto)

    same_level : next.top_level ≡ level_of k sto
    same_level = omega (arith, bound)
