-- ===== src/Store/InMemory/Invariant.antt =====
-- The invariant of the store under its methods, and what each method does to the whole store.
use push_component.Base.{
  ℕ, ◌≡◌, refl, inl, inr, false, List, [], ◌∷◌, some, ◌>>=◌, GoString, string_Eq, str_eq, get_or,
  lookup, insert, All, All-append, arith, lookup-insert, length-append, Option-cases, Bool-cases,
  subst,
}
use push_component.Protocol.Messages.{Notification}
use push_component.Store.Filter.{Metadata}
use push_component.Store.Filter.Obsolete.{
  notifications_of, live_entries, filter_out_obsolete-live_entries,
}
use push_component.Store.InMemory.{
  Channel, Store, empty_channel, append_to, append_to_channel, append_to_unicast_channel,
  get_channel_snapshot, scrub_criteria, scrub, drop_by_msg_id,
}
use push_component.Store.InMemory.Views.{IsWellFormed, entries, scrub_channel-IsWellFormed}
use push_component.Store.InMemory.Dropped.{drop_in_channel-IsWellFormed}

-- Every channel of the store is well-formed.
abbrev pub IsConsistent : Store → Type 0
IsConsistent sto = (k : GoString) (ch : Channel) → lookup k sto ≡ some ch → IsWellFormed ch

insert-IsConsistent :
    (k : GoString) (ch : Channel) (sto : Store)
    → IsConsistent sto
    → IsWellFormed ch
    → IsConsistent (insert k ch sto)
insert-IsConsistent k ch sto h w j c e =
    let e' = rw (lookup-insert k j ch sto) at e in
    elim (Bool-cases (str_eq k j)) [
      | inl same ↦
          let e'' : some ch ≡ some c = rw same at e' in
          let is : ch ≡ c = cc in subst (λ c. IsWellFormed c) is w
      | inr other ↦ h j c (rw other at e')
    ]

-- The calls that change the store.
pub data Call : Type 0 where
  appends : GoString → GoString → ℕ → Call
  appends_unicast : GoString → GoString → GoString → GoString → Metadata → Call
  scrubs : ℕ → GoString → List GoString → Call
  drops : GoString → List Notification → Call

-- The store after a call; one that panics leaves it as it was.
unfoldable pub after : Store → Call → Store
after sto (appends chan_id payload expiration) = append_to_channel chan_id payload expiration sto
after sto (appends_unicast chan_id app_id payload msg_id meta) =
    append_to_unicast_channel chan_id app_id payload msg_id meta sto
after sto (scrubs now chan_id criteria) = get_or (scrub now chan_id criteria sto) sto
after sto (drops chan_id targets) = drop_by_msg_id chan_id targets sto

unfoldable pub run : Store → List Call → Store
run sto [] = sto
run sto (c ∷ cs) = run (after sto c) cs

-- Callers store metadata that is not marked obsolete.
abbrev pub IsFresh : Call → Type 0
IsFresh (appends_unicast chan_id app_id payload msg_id meta) = meta.obsolete ≡ false
IsFresh _ = Unit

-- The channel that a call is about.
abbrev pub channel_of : Call → GoString
channel_of (appends chan_id payload expiration) = chan_id
channel_of (appends_unicast chan_id app_id payload msg_id meta) = chan_id
channel_of (scrubs now chan_id criteria) = chan_id
channel_of (drops chan_id targets) = chan_id

abbrev pub channel_at : GoString → Store → Channel
channel_at k sto = get_or (lookup k sto) empty_channel

pub channel_at-IsWellFormed :
    (k : GoString) (sto : Store) → IsConsistent sto → IsWellFormed (channel_at k sto)
channel_at-IsWellFormed k sto h = elim (Option-cases (lookup k sto)) [
  | inl e ↦ rw e (record { paired = refl; unmarked = tt })
  | inr (ch, e) ↦ rw e (h k ch e)
]

pub append_to-IsConsistent :
    (k : GoString) (n : Notification) (inc : ℕ) (m : Metadata) (sto : Store)
    → m.obsolete ≡ false
    → IsConsistent sto
    → IsConsistent (append_to k n inc m sto)
unfolding append_to
append_to-IsConsistent k n inc m sto u h =
    let prev = channel_at k sto in
    let w = channel_at-IsWellFormed k sto h in
    insert-IsConsistent k _ sto h (record {
      paired = omega (
        arith,
        w.paired,
        length-append prev.notifications (n ∷ []),
        length-append prev.meta (m ∷ []),
      );
      unmarked = All-append (λ m. m.obsolete ≡ false) prev.meta (m ∷ []) w.unmarked (u, tt);
    })

scrub-IsConsistent :
    (now : ℕ) (k : GoString) (criteria : List GoString) (sto : Store)
    → IsConsistent sto
    → IsConsistent (get_or (scrub now k criteria sto) sto)
unfolding scrub
scrub-IsConsistent now k criteria sto h = elim (Option-cases (scrub_criteria criteria)) [
  | inl e ↦ rw (e, ◌>>=◌) h
  | inr ((app, tag), e) ↦ elim (Option-cases (lookup k sto)) [
    | inl missing ↦ rw (e, ◌>>=◌, missing) h
    | inr (ch, found) ↦
        rw (e, ◌>>=◌, found)
          (insert-IsConsistent k _ sto h (scrub_channel-IsWellFormed now app tag ch (h k ch found)))
  ]
]

pub drop_by_msg_id-IsConsistent :
    (k : GoString) (targets : List Notification) (sto : Store)
    → IsConsistent sto
    → IsConsistent (drop_by_msg_id k targets sto)
unfolding drop_by_msg_id
drop_by_msg_id-IsConsistent k targets sto h = elim (Option-cases (lookup k sto)) [
  | inl missing ↦ rw (missing, drop_by_msg_id) h
  | inr (ch, found) ↦
      rw (found, drop_by_msg_id)
        (insert-IsConsistent k _ sto h (drop_in_channel-IsWellFormed targets ch (h k ch found)))
]

after-IsConsistent :
    (sto : Store) (c : Call) → IsFresh c → IsConsistent sto → IsConsistent (after sto c)
unfolding after append_to_channel append_to_unicast_channel
after-IsConsistent sto (appends k payload expiration) u h =
    append_to-IsConsistent k _ 1 _ sto refl h
after-IsConsistent sto (appends_unicast k app payload msg m) u h =
    append_to-IsConsistent k _ 0 m sto u h
after-IsConsistent sto (scrubs now k criteria) u h = scrub-IsConsistent now k criteria sto h
after-IsConsistent sto (drops k targets) u h = drop_by_msg_id-IsConsistent k targets sto h

-- Whatever calls are made on a consistent store, as long as no caller stores metadata that is
-- already marked obsolete: every channel keeps as many metadata as notifications, none of it
-- marked.
pub run-IsConsistent :
    (sto : Store) (cs : List Call) → All IsFresh cs → IsConsistent sto → IsConsistent (run sto cs)
unfolding run
run-IsConsistent sto [] f h = h
run-IsConsistent sto (c ∷ cs) f h =
    run-IsConsistent (after sto c) cs f.1 (after-IsConsistent sto c f.0 h)

pub empty-IsConsistent : IsConsistent []
unfolding lookup
empty-IsConsistent k ch e = cc

-- A snapshot of a channel of a consistent store has its level and the notifications that count at
-- the time, and of a channel that is not there the level 0 and nothing.
pub get_channel_snapshot-live_entries :
    (now : ℕ) (k : GoString) (sto : Store)
    → IsConsistent sto
    → get_channel_snapshot now k sto ≡ (
      (channel_at k sto).top_level,
      notifications_of (live_entries now (entries (channel_at k sto))),
    )
unfolding get_channel_snapshot
get_channel_snapshot-live_entries now k sto h = elim (Option-cases (lookup k sto)) [
  | inl e ↦ rw (e, get_channel_snapshot) (unfold live_entries in refl)
  | inr (ch, e) ↦
      let w = h k ch e in
      rw (
        e,
        get_channel_snapshot,
        filter_out_obsolete-live_entries now ch.notifications ch.meta w.paired w.unmarked,
      )
]
