-- ===== src/Store/Filter/Obsolete.antt =====
-- FilterOutObsolete against a description that looks forward from each entry.
use push_component.Base.{
  ℕ, suc, ◌-◌, ◌≡◌, refl, ap, Bool, true, false, not, ◌&&◌, ◌||◌, List, [], ◌∷◌, GoString,
  string_Eq, pair_Eq, str_eq, str_eq_iff, length, get_or, if◌then◌else◌, All, arith, lookup,
  lookup-insert,
}
use mathlib.Core.List.{append-nil}
use push_component.Protocol.Messages.{Notification}
use push_component.Store.Filter.{
  Metadata, before, is_empty, walk, walk_step, copy_kept, filter_out_obsolete,
}

-- A stored notification with its metadata.
abbrev pub Entry : Type 0
Entry = Notification × Metadata

abbrev pub zip : List Notification → List Metadata → List Entry
zip [] ms = []
zip (n ∷ ns) [] = []
zip (n ∷ ns) (m ∷ ms) = (n, m) ∷ zip ns ms

abbrev pub notifications_of : List Entry → List Notification
notifications_of [] = []
notifications_of ((n, m) ∷ es) = n ∷ notifications_of es

abbrev pub metadata_of : List Entry → List Metadata
metadata_of [] = []
metadata_of ((n, m) ∷ es) = m ∷ metadata_of es

-- Whether an entry that has not expired has this application and replace tag.
unfoldable pub tagged : ℕ → GoString → GoString → List Entry → Bool
tagged now app tag [] = false
tagged now app tag ((n, m) ∷ es) =
    (not (before m now) && (str_eq n.app_id app && str_eq m.replace_tag tag))
    || tagged now app tag es

-- Whether an entry is dropped: it has expired, or it has a replace tag and a later entry that has
-- not expired replaces it.
unfoldable pub is_obsolete : ℕ → Entry → List Entry → Bool
is_obsolete now (n, m) later =
    before m now || (not (is_empty m.replace_tag) && tagged now n.app_id m.replace_tag later)

-- The entries that count at the time `now`.
unfoldable pub live_entries : ℕ → List Entry → List Entry
unfolding tagged is_obsolete
live_entries now [] = []
live_entries now (e ∷ es) =
    let rest = live_entries now es in if is_obsolete now e es then rest else e ∷ rest

-- The metadata of all entries, with those marked that do not count.
unfoldable pub marked_metadata : ℕ → List Entry → List Metadata
unfolding tagged is_obsolete
marked_metadata now [] = []
marked_metadata now ((n, m) ∷ es) =
    (if is_obsolete now (n, m) es then record m { obsolete = true } else m) ∷ marked_metadata now es

-- No metadata is marked yet.
abbrev pub IsUnmarked : List Metadata → Type 0
IsUnmarked = All (λ m. m.obsolete ≡ false)

seen-tagged :
    (now : ℕ) (app tag : GoString) (ns : List Notification) (ms : List Metadata)
    → length ns ≡ length ms
    → is_empty tag ≡ false
    → get_or (lookup (app, tag) (walk now ns ms).seen_tags) false ≡ tagged now app tag (zip ns ms)
unfolding walk tagged walk_step lookup
seen-tagged now app tag [] [] h t = refl
seen-tagged now app tag [] (m ∷ ms) h t = absurd (omega arith)
seen-tagged now app tag (n ∷ ns) [] h t = absurd (omega arith)
seen-tagged now app tag (n ∷ ns) (m ∷ ms) h t = ground (
  arith,
  seen-tagged now app tag ns ms (omega arith) t,
  lookup-insert (n.app_id, m.replace_tag) (app, tag) true (walk now ns ms).seen_tags,
  str_eq_iff n.app_id app,
  str_eq_iff m.replace_tag tag,
)

-- The walk marks exactly the obsolete entries, and counts the others.
walk_lem :
    (now : ℕ) (ns : List Notification) (ms : List Metadata)
    → length ns ≡ length ms
    → IsUnmarked ms
    → ((walk now ns ms).marked ≡ marked_metadata now (zip ns ms))
      × ((walk now ns ms).kept ≡ length (live_entries now (zip ns ms)))
      × (copy_kept ns (walk now ns ms).marked ≡ notifications_of (live_entries now (zip ns ms)))
unfolding walk walk_step copy_kept live_entries marked_metadata
walk_lem now [] [] h u = (refl, refl, refl)
walk_lem now [] (m ∷ ms) h u = absurd (omega arith)
walk_lem now (n ∷ ns) [] h u = absurd (omega arith)
walk_lem now (n ∷ ns) (m ∷ ms) h u = ground (
  arith,
  walk_lem now ns ms (omega arith) u.1,
  seen-tagged now n.app_id m.replace_tag ns ms (omega arith),
)

length-notifications_of : (es : List Entry) → length (notifications_of es) ≡ length es
length-notifications_of [] = refl
length-notifications_of ((n, m) ∷ es) = ap suc (length-notifications_of es)

-- FilterOutObsolete on unmarked metadata of the same length: it returns the notifications of the
-- entries that have not expired and that no later entry which has not expired replaces by the same
-- application and tag, in order and with nothing else, and it marks the metadata of exactly the
-- other entries.
pub filter_out_obsolete-live_entries :
    (now : ℕ) (ns : List Notification) (ms : List Metadata)
    → length ns ≡ length ms
    → IsUnmarked ms
    → filter_out_obsolete now ns ms
      ≡ (notifications_of (live_entries now (zip ns ms)), marked_metadata now (zip ns ms))
unfolding filter_out_obsolete
filter_out_obsolete-live_entries now ns ms h u =
    let (marked, kept, copied) = walk_lem now ns ms h u in
    let es = live_entries now (zip ns ms) in
    let none_left : length es - length (notifications_of es) ≡ 0 =
      omega (arith, length-notifications_of es) in
    rw (copied, kept, none_left, append-nil (notifications_of es), marked)
