-- ===== src/Broker/Pending.antt =====
-- A channel of the pending store whose notifications are all to be delivered, while an exchange
-- takes them out of the store.
use push_component.Base.{
  ℕ, ◌<◌, ◌≡◌, ap, ◌∙◌, Bool, false, not, ◌||◌, arith, str_eq_iff, List, [], ◌∷◌, ◌++◌, some,
  GoString, string_Eq, str_eq, lookup, lookup-insert, elem, IsDistinct, select, Option-cases, inl,
  inr,
}
use push_component.Protocol.Messages.{Notification}
use push_component.Base.Int64.{modulus, add64}
use push_component.Store.Filter.{Metadata, before}
use push_component.Store.Filter.Drop.{msg_ids, without, without_head, filter_out_by_msg_id-without}
use push_component.Store.Filter.Obsolete.{Entry, notifications_of, is_obsolete, tagged}
use push_component.Store.InMemory.{
  Channel, Store, get_channel_snapshot, drop_by_msg_id, drop_in_channel, append_to,
  append_to_unicast_channel,
}
use push_component.Store.InMemory.Views.{entries, notifications_of-zip}
use push_component.Store.InMemory.Appended.{tagged-append}
use push_component.Store.InMemory.Pending.{zip-append}
use push_component.Store.InMemory.Dropped.{drop_in_channel-entries}
use push_component.Store.InMemory.Levels.{lookup-insert_self}
use push_component.Store.InMemory.Invariant.{
  IsConsistent, channel_at, channel_at-IsWellFormed, append_to-IsConsistent,
  drop_by_msg_id-IsConsistent,
}
use push_component.Broker.Unicasts.{
  NoneObsolete, snapshot_of, live_entries_all, select-NoneObsolete,
}

-- The channel `k` of the store holds the notifications `ns` at the level `level`: no two share a
-- message id, and at the time `now` none has expired or been replaced.
pub record IsPending (now level : ℕ) (k : GoString) (ns : List Notification) (sto : Store)
    : Type 0 where
  pub channel : Channel
  pub consistent : IsConsistent sto
  pub found : lookup k sto ≡ some channel
  pub level_is : channel.top_level ≡ level
  pub holds : channel.notifications ≡ ns
  pub distinct : IsDistinct (msg_ids ns)
  pub none_obsolete : NoneObsolete now (entries channel)

pub IsPending-snapshot :
    (now level : ℕ) (k : GoString) (ns : List Notification) (sto : Store)
    → IsPending now level k ns sto
    → get_channel_snapshot now k sto ≡ (level, ns)
IsPending-snapshot now level k ns sto p =
    let ch : Channel = p.channel in
    let names : notifications_of (entries ch) ≡ ns =
      notifications_of-zip ch.notifications ch.meta (p.consistent k ch p.found).paired ∙ p.holds in
    snapshot_of now k sto ch p.consistent p.found
    ∙ ap (λ es. (ch.top_level, notifications_of es))
        (live_entries_all now (entries ch) p.none_obsolete)
    ∙ ap (λ ns. (ch.top_level, ns)) names
    ∙ ap (λ level. (level, ns)) p.level_is

IsDistinct-suffix :
    (xs ys : List Notification) → IsDistinct (msg_ids (xs ++ ys)) → IsDistinct (msg_ids ys)
IsDistinct-suffix [] ys d = d
IsDistinct-suffix (x ∷ xs) ys d = IsDistinct-suffix xs ys d.1

-- The first notifications are dropped, and the others are still to be delivered.
pub drop_by_msg_id-IsPending :
    (now level : ℕ) (k : GoString) (sent rest : List Notification) (sto : Store)
    → IsPending now level k (sent ++ rest) sto
    → IsPending now level k rest (drop_by_msg_id k sent sto)
unfolding drop_by_msg_id drop_in_channel
drop_by_msg_id-IsPending now level k sent rest sto p = record {
  channel = drop_in_channel sent p.channel;
  consistent = drop_by_msg_id-IsConsistent k sent sto p.consistent;
  found = rw (drop_by_msg_id, p.found) (lookup-insert_self k _ sto);
  level_is = p.level_is;
  holds =
      filter_out_by_msg_id-without p.channel.notifications sent whole
      ∙ ap (without (msg_ids sent)) p.holds
      ∙ without_head sent rest p.distinct;
  distinct = IsDistinct-suffix sent rest p.distinct;
  none_obsolete = rw left (select-NoneObsolete kept now (entries p.channel) p.none_obsolete);
}
  where
    kept : Entry → Bool
    kept e = not (elem e.0.msg_id (msg_ids sent))

    whole : IsDistinct (msg_ids p.channel.notifications)
    whole = rw p.holds p.distinct

    left : entries (drop_in_channel sent p.channel) ≡ select kept (entries p.channel)
    left = drop_in_channel-entries sent p.channel (p.consistent k p.channel p.found) whole

pub lookup-drop_by_msg_id :
    (k other : GoString) (targets : List Notification) (sto : Store)
    → str_eq k other ≡ false
    → lookup other (drop_by_msg_id k targets sto) ≡ lookup other sto
unfolding drop_by_msg_id
lookup-drop_by_msg_id k other targets sto apart = elim (Option-cases (lookup k sto)) [
  | inl e ↦ rw (drop_by_msg_id, e)
  | inr (ch, e) ↦
      rw (drop_by_msg_id, e, lookup-insert k other (drop_in_channel targets ch) sto, apart)
]

-- What the store has for the channel `k`, which may be missing yet: the notifications `ns`.
pub record Waits (now level : ℕ) (k : GoString) (ns : List Notification) (sto : Store)
    : Type 0 where
  pub consistent : IsConsistent sto
  pub level_is : (channel_at k sto).top_level ≡ level
  pub holds : (channel_at k sto).notifications ≡ ns
  pub distinct : IsDistinct (msg_ids ns)
  pub none_obsolete : NoneObsolete now (entries (channel_at k sto))

pub append-NoneObsolete :
    (now : ℕ) (es : List Entry) (n : Notification) (m : Metadata)
    → before m now ≡ false
    → m.replace_tag ≡ []
    → NoneObsolete now es
    → NoneObsolete now (es ++ (n, m) ∷ [])
unfolding is_obsolete tagged
append-NoneObsolete now [] n m fresh untagged h = (ground (arith, fresh, untagged), tt)
append-NoneObsolete now ((n', m') ∷ es) n m fresh untagged h = (
  ground (
    arith,
    h.0,
    fresh,
    tagged-append now n'.app_id m'.replace_tag es (n, m),
    str_eq_iff m.replace_tag m'.replace_tag,
    str_eq_iff m'.replace_tag [],
    untagged,
  ),
  append-NoneObsolete now es n m fresh untagged h.1,
)

elem-msg_ids-append :
    (id : GoString) (ns : List Notification) (n : Notification)
    → elem id (msg_ids (ns ++ n ∷ [])) ≡ (elem id (msg_ids ns) || str_eq n.msg_id id)
elem-msg_ids-append id [] n = ground arith
elem-msg_ids-append id (n' ∷ ns) n = ground (arith, elem-msg_ids-append id ns n)

IsDistinct-append :
    (ns : List Notification) (n : Notification)
    → elem n.msg_id (msg_ids ns) ≡ false
    → IsDistinct (msg_ids ns)
    → IsDistinct (msg_ids (ns ++ n ∷ []))
IsDistinct-append [] n new h = ((λ i. false), tt)
IsDistinct-append (n' ∷ ns) n new h = (
  ground (
    arith,
    elem-msg_ids-append n'.msg_id ns n,
    str_eq_iff n.msg_id n'.msg_id,
    str_eq_iff n'.msg_id n.msg_id,
    h.0,
    new,
  ),
  IsDistinct-append ns n (ground (arith, new)) h.1,
)

-- A notification with a new message id and no replace tag, which has not expired, waits behind those
-- that wait.
pub append_to_unicast_channel-IsPending :
    (now level : ℕ) (k app_id payload msg_id : GoString) (meta : Metadata) (ns : List Notification)
    (sto : Store)
    → Waits now level k ns sto
    → level < modulus
    → elem msg_id (msg_ids ns) ≡ false
    → before meta now ≡ false
    → meta.replace_tag ≡ []
    → meta.obsolete ≡ false
    → IsPending now level k
        (ns ++ record { app_id = app_id; msg_id = msg_id; payload = payload } ∷ [])
        (append_to_unicast_channel k app_id payload msg_id meta sto)
unfolding append_to_unicast_channel append_to
append_to_unicast_channel-IsPending now level k app_id payload msg_id meta ns sto w bound new fresh
      untagged unmarked =
    record {
      channel = next;
      consistent = append_to-IsConsistent k n 0 meta sto unmarked w.consistent;
      found = lookup-insert_self k next sto;
      level_is = omega (arith, w.level_is, bound);
      holds = ap (λ ns. ns ++ n ∷ []) w.holds;
      distinct = IsDistinct-append ns n new w.distinct;
      none_obsolete =
          rw added (append-NoneObsolete now (entries prev) n meta fresh untagged w.none_obsolete);
    }
  where
    n : Notification
    n = record { app_id = app_id; msg_id = msg_id; payload = payload }

    prev : Channel
    prev = channel_at k sto

    next : Channel
    next = record {
      top_level = add64 prev.top_level 0;
      notifications = prev.notifications ++ n ∷ [];
      meta = prev.meta ++ meta ∷ [];
    }

    added : entries next ≡ entries prev ++ (n, meta) ∷ []
    added =
        zip-append prev.notifications prev.meta n meta
          (channel_at-IsWellFormed k sto w.consistent).paired
