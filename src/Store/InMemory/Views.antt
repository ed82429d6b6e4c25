-- ===== src/Store/InMemory/Views.antt =====
-- What the methods of the store do to a channel, seen as one list of notifications with metadata.
use push_component.Base.{
  ℕ, suc, ◌≡◌, refl, sym, ap, ◌∙◌, true, false, inl, inr, not, List, [], ◌∷◌, GoString, string_Eq,
  length, select, All, arith, All-select, Bool-cases,
}
use push_component.Protocol.Messages.{Notification}
use push_component.Store.Filter.{Metadata}
use push_component.Store.Filter.Obsolete.{
  Entry, zip, notifications_of, metadata_of, live_entries, marked_metadata, is_obsolete, IsUnmarked,
  filter_out_obsolete-live_entries,
}
use push_component.Store.InMemory.{Channel, is_scrubbed, scrub_loop, scrub_channel}

-- The two lists of a channel have one length, and no stored metadata is marked.
pub record IsWellFormed (ch : Channel) : Type 0 where
  pub paired : length ch.notifications ≡ length ch.meta
  pub unmarked : IsUnmarked ch.meta

abbrev pub entries : Channel → List Entry
entries ch = zip ch.notifications ch.meta

-- The entries that Scrub keeps by its criteria.
abbrev pub keep_unscrubbed : GoString → GoString → List Entry → List Entry
keep_unscrubbed app_id replace_tag = select (λ e. not (is_scrubbed app_id replace_tag e.0 e.1))

scrub_loop_empty : (app tag : GoString) (ms : List Metadata) → scrub_loop app tag [] ms ≡ ([], [])
unfolding scrub_loop
scrub_loop_empty app tag [] = refl
scrub_loop_empty app tag (m ∷ ms) = refl

scrub_loop_skip :
    (app tag : GoString) (ns : List Notification) (m : Metadata) (ms : List Metadata)
    → m.obsolete ≡ true
    → scrub_loop app tag ns (m ∷ ms) ≡ scrub_loop app tag ns ms
unfolding scrub_loop
scrub_loop_skip app tag [] m ms h = sym (scrub_loop_empty app tag ms)
scrub_loop_skip app tag (n ∷ ns) m ms h = ground arith

scrub_loop_fresh :
    (now : ℕ) (app tag : GoString) (n : Notification) (m : Metadata) (es : List Entry)
    → m.obsolete ≡ false
    → (let kept = keep_unscrubbed app tag (live_entries now es) in
        scrub_loop app tag (notifications_of (live_entries now es)) (marked_metadata now es)
        ≡ (notifications_of kept, metadata_of kept))
    → let kept = keep_unscrubbed app tag ((n, m) ∷ live_entries now es) in
      scrub_loop app tag (n ∷ notifications_of (live_entries now es)) (m ∷ marked_metadata now es)
      ≡ (notifications_of kept, metadata_of kept)
unfolding scrub_loop
scrub_loop_fresh now app tag n m es u h = ground arith

scrub_loop_lem :
    (now : ℕ) (app tag : GoString) (es : List Entry)
    → IsUnmarked (metadata_of es)
    → let kept = keep_unscrubbed app tag (live_entries now es) in
      scrub_loop app tag (notifications_of (live_entries now es)) (marked_metadata now es)
      ≡ (notifications_of kept, metadata_of kept)
unfolding live_entries marked_metadata
scrub_loop_lem now app tag [] u = scrub_loop_empty app tag []
scrub_loop_lem now app tag ((n, m) ∷ es) u = elim (Bool-cases (is_obsolete now (n, m) es)) [
  | inl old ↦ rw old (
      scrub_loop_skip app tag _ (record m { obsolete = true }) _ refl
      ∙ scrub_loop_lem now app tag es u.1)
  | inr fresh ↦
      rw fresh (scrub_loop_fresh now app tag n m es u.0 (scrub_loop_lem now app tag es u.1))
]

pub metadata_of-zip :
    (ns : List Notification) (ms : List Metadata)
    → length ns ≡ length ms
    → metadata_of (zip ns ms) ≡ ms
metadata_of-zip [] [] h = refl
metadata_of-zip [] (m ∷ ms) h = absurd (omega arith)
metadata_of-zip (n ∷ ns) [] h = absurd (omega arith)
metadata_of-zip (n ∷ ns) (m ∷ ms) h = ap (◌∷◌ m) (metadata_of-zip ns ms (omega arith))

pub notifications_of-zip :
    (ns : List Notification) (ms : List Metadata)
    → length ns ≡ length ms
    → notifications_of (zip ns ms) ≡ ns
notifications_of-zip [] [] h = refl
notifications_of-zip [] (m ∷ ms) h = absurd (omega arith)
notifications_of-zip (n ∷ ns) [] h = absurd (omega arith)
notifications_of-zip (n ∷ ns) (m ∷ ms) h = ap (◌∷◌ n) (notifications_of-zip ns ms (omega arith))

pub zip-of : (es : List Entry) → zip (notifications_of es) (metadata_of es) ≡ es
zip-of [] = refl
zip-of ((n, m) ∷ es) = ap (◌∷◌ (n, m)) (zip-of es)

-- Scrubbing a well-formed channel leaves the live entries that the criteria do not hit, each with
-- its metadata, and the level.
pub scrub_channel_lem :
    (now : ℕ) (app tag : GoString) (ch : Channel)
    → IsWellFormed ch
    → let kept = keep_unscrubbed app tag (live_entries now (entries ch)) in
      scrub_channel now app tag ch
      ≡ record ch { notifications = notifications_of kept; meta = metadata_of kept }
unfolding scrub_channel
scrub_channel_lem now app tag ch w = rw (
  filter_out_obsolete-live_entries now ch.notifications ch.meta w.paired w.unmarked,
  scrub_loop_lem now app tag (entries ch)
      (rw (metadata_of-zip ch.notifications ch.meta w.paired) w.unmarked),
)

length-of : (es : List Entry) → length (notifications_of es) ≡ length (metadata_of es)
length-of [] = refl
length-of ((n, m) ∷ es) = ap suc (length-of es)

abbrev HasUnmarked : List Entry → Type 0
HasUnmarked = All (λ e. e.1.obsolete ≡ false)

zip-HasUnmarked :
    (ns : List Notification) (ms : List Metadata) → IsUnmarked ms → HasUnmarked (zip ns ms)
zip-HasUnmarked [] ms u = tt
zip-HasUnmarked (n ∷ ns) [] u = tt
zip-HasUnmarked (n ∷ ns) (m ∷ ms) u = (u.0, zip-HasUnmarked ns ms u.1)

pub live_entries-All {ℓ} :
    (P : Entry → Type ℓ) (now : ℕ) (es : List Entry) → All P es → All P (live_entries now es)
unfolding live_entries
live_entries-All P now [] u = u
live_entries-All P now (e ∷ es) u = elim (Bool-cases (is_obsolete now e es)) [
  | inl old ↦ rw old (live_entries-All P now es u.1)
  | inr fresh ↦ rw fresh (u.0, live_entries-All P now es u.1)
]

metadata_of-IsUnmarked : (es : List Entry) → HasUnmarked es → IsUnmarked (metadata_of es)
metadata_of-IsUnmarked [] u = tt
metadata_of-IsUnmarked ((n, m) ∷ es) u = (u.0, metadata_of-IsUnmarked es u.1)

pub scrub_channel-IsWellFormed :
    (now : ℕ) (app tag : GoString) (ch : Channel)
    → IsWellFormed ch
    → IsWellFormed (scrub_channel now app tag ch)
scrub_channel-IsWellFormed now app tag ch w =
    let live = live_entries now (entries ch) in
    rw (scrub_channel_lem now app tag ch w) (record {
      paired = length-of (keep_unscrubbed app tag live);
      unmarked = metadata_of-IsUnmarked (keep_unscrubbed app tag live) (
          All-select (λ e. e.1.obsolete ≡ false) _ live
            (live_entries-All (λ e. e.1.obsolete ≡ false) now (entries ch)
              (zip-HasUnmarked ch.notifications ch.meta w.unmarked)));
    })
