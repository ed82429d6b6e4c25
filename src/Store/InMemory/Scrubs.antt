-- ===== src/Store/InMemory/Scrubs.antt =====
-- Scrub of server/store/inmemory.go, by its criteria.
use push_component.Base.{
  ℕ, ◌<◌, ◌≤◌, ◌≡◌, ◌≢◌, refl, ap, ◌∙◌, Bool, false, not, ◌&&◌, ◌||◌, List, [], ◌∷◌, ◌++◌, none,
  some, ◌>>=◌, GoString, string_Eq, str_eq, lookup, insert, length, select, arith,
}
use push_component.Base.Int64.{add64}
use push_component.Protocol.Messages.{Notification}
use push_component.Store.Filter.{Metadata, is_empty}
use push_component.Store.Filter.Obsolete.{Entry, live_entries}
use push_component.Store.InMemory.{
  Channel, Store, append_to_channel, append_to, scrub_criteria, scrub_channel, scrub, is_scrubbed,
}
use push_component.Store.InMemory.Views.{entries, scrub_channel_lem, zip-of}
use push_component.Store.InMemory.Appended.{replaced_by, live_entries-append}
use push_component.Store.InMemory.Invariant.{
  IsConsistent, channel_at, channel_at-IsWellFormed, append_to-IsConsistent,
}
use push_component.Store.InMemory.Levels.{lookup-insert_self, lookup-insert_ne, apart}
use push_component.Store.InMemory.Pending.{zip-append}

-- Whether criteria name an entry: by its application, and by its replace tag where one is given.
abbrev pub named_by : List GoString → Entry → Bool
named_by [] (n, m) = str_eq n.app_id []
named_by (app ∷ []) (n, m) = str_eq n.app_id app
named_by (app ∷ tag ∷ more) (n, m) =
    str_eq n.app_id app && (is_empty tag || str_eq m.replace_tag tag)

select-ext {ℓ} :
    {A : Type ℓ} (p q : A → Bool) (xs : List A) → ((x : A) → p x ≡ q x) → select p xs ≡ select q xs
select-ext p q [] h = refl
select-ext p q (x ∷ xs) h = rw (h x, select-ext p q xs h)

-- At most two criteria are read.
criteria_lem :
    (criteria : List GoString)
    → length criteria ≤ 2
    → (app : GoString) × (tag : GoString) × (scrub_criteria criteria ≡ some (app, tag))
      × ((e : Entry) → not (is_scrubbed app tag e.0 e.1) ≡ not (named_by criteria e))
unfolding scrub_criteria is_scrubbed str_eq
criteria_lem [] h = ([], [], refl, λ e. refl)
criteria_lem (app ∷ []) h = (app, [], refl, λ e. refl)
criteria_lem (app ∷ tag ∷ []) h = (app, tag, refl, λ e. ground arith)
criteria_lem (a ∷ b ∷ c ∷ more) h = absurd (omega arith)

criteria_none : (criteria : List GoString) → 2 < length criteria → scrub_criteria criteria ≡ none
unfolding scrub_criteria
criteria_none [] h = absurd (omega arith)
criteria_none (app ∷ []) h = absurd (omega arith)
criteria_none (app ∷ tag ∷ []) h = absurd (omega arith)
criteria_none (a ∷ b ∷ c ∷ more) h = refl

-- Scrub with at most two criteria, on a channel of a consistent store, leaves the notifications that
-- count at the time and that the criteria do not name, each with its metadata, in order; it keeps
-- the level, and changes no other channel. The criteria are an application, empty if it is not
-- given, and a replace tag, which counts only where it is given and not empty. With more criteria it
-- panics.
pub scrub-entries :
    (now : ℕ) (k : GoString) (criteria : List GoString) (sto : Store) (ch : Channel)
    → IsConsistent sto
    → lookup k sto ≡ some ch
    → (length criteria ≤ 2
        → (sto' : Store) × (ch' : Channel) × (scrub now k criteria sto ≡ some sto')
          × (lookup k sto' ≡ some ch')
          × (entries ch' ≡ select (λ e. not (named_by criteria e)) (live_entries now (entries ch)))
          × (ch'.top_level ≡ ch.top_level)
          × ((j : GoString) → k ≢ j → lookup j sto' ≡ lookup j sto))
      × (2 < length criteria → scrub now k criteria sto ≡ none)
unfolding scrub
scrub-entries now k criteria sto ch h found = (
  λ few.
      let (app, tag, read, same) = criteria_lem criteria few in
      let lem = scrub_channel_lem now app tag ch (h k ch found) in
      (
        insert k (scrub_channel now app tag ch) sto,
        scrub_channel now app tag ch,
        rw (read, ◌>>=◌, found),
        lookup-insert_self k _ sto,
        ap (λ c. entries c) lem ∙ zip-of _ ∙ select-ext _ _ (live_entries now (entries ch)) same,
        ap (λ c. c.top_level) lem,
        λ j other. lookup-insert_ne k j _ sto (apart k j other),
      ),
  λ many. rw (criteria_none criteria many, ◌>>=◌),
)

-- A notification without a replace tag replaces none.
select-untagged :
    (n : Notification) (expiration : ℕ) (es : List Entry)
    → (let m : Metadata = record { expiration = expiration; replace_tag = []; obsolete = false } in
        select (λ e. not (replaced_by (n, m) e)) es ≡ es)
unfolding str_eq
select-untagged n expiration [] = refl
select-untagged n expiration (e ∷ es) = ap (◌∷◌ e) (select-untagged n expiration es)

-- A last entry that the test does not take.
select-append_false {ℓ} :
    {A : Type ℓ} (p : A → Bool) (xs : List A) (x : A)
    → p x ≡ false
    → select p (xs ++ x ∷ []) ≡ select p xs
select-append_false p [] x h = rw h
select-append_false p (y ∷ xs) x h = rw (select-append_false p xs x h)

-- A broadcast that has just been stored in a channel of a consistent store, and that has not
-- expired, is gone after Scrub without criteria: what is left are, of the notifications that counted
-- at the time, those with an application id that is not empty. The level counts the lost broadcast.
pub scrub-append_to_channel :
    (now expiration : ℕ) (k payload : GoString) (sto : Store)
    → IsConsistent sto
    → now ≤ expiration
    → (sto' : Store) × (ch' : Channel) × (scrub now k []
          (append_to_channel k payload expiration sto)
        ≡ some sto')
      × (lookup k sto' ≡ some ch')
      × (entries ch'
          ≡ select
              (λ e. not (str_eq e.0.app_id []))
              (live_entries now (entries (channel_at k sto))))
      × (ch'.top_level ≡ add64 (channel_at k sto).top_level 1)
unfolding append_to_channel append_to str_eq
scrub-append_to_channel now expiration k payload sto h fresh =
    let (sto', ch', run, there, left, level, others) =
      (scrub-entries now k [] (append_to k n 1 m sto) next
          (append_to-IsConsistent k n 1 m sto refl h) (lookup-insert_self k next sto)).0
        (omega arith) in
    (
      sto',
      ch',
      run,
      there,
      left
          ∙ ap (λ es. select named (live_entries now es))
              (zip-append prev.notifications prev.meta n m (channel_at-IsWellFormed k sto h).paired)
          ∙ ap (λ es. select named es)
              (live_entries-append now (entries prev) (n, m) (ground (arith, fresh)))
          ∙ ap (λ es. select named (es ++ (n, m) ∷ []))
              (select-untagged n expiration (live_entries now (entries prev)))
          ∙ select-append_false named (live_entries now (entries prev)) (n, m) refl,
      level,
    )
  where
    n : Notification
    n = record { app_id = []; msg_id = []; payload = payload }

    m : Metadata
    m = record { expiration = expiration; replace_tag = []; obsolete = false }

    prev : Channel
    prev = channel_at k sto

    next : Channel
    next = record {
      top_level = add64 prev.top_level 1;
      notifications = prev.notifications ++ n ∷ [];
      meta = prev.meta ++ m ∷ [];
    }

    named : Entry → Bool
    named e = not (str_eq e.0.app_id [])
