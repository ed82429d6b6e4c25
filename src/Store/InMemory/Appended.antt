-- ===== src/Store/InMemory/Appended.antt =====
-- What a new notification does to those that are pending.
use push_component.Base.{
  ℕ, ◌≡◌, refl, Bool, false, not, ◌&&◌, ◌||◌, List, [], ◌∷◌, ◌++◌, GoString, string_Eq, str_eq,
  str_eq_iff, select, arith,
}
use push_component.Store.Filter.{before, is_empty}
use push_component.Store.Filter.Obsolete.{Entry, live_entries, tagged}

-- Whether the entry has the tag of a new one, for the same application.
abbrev pub replaced_by : Entry → Entry → Bool
replaced_by new old =
    not (is_empty new.1.replace_tag)
    && (str_eq old.0.app_id new.0.app_id && str_eq old.1.replace_tag new.1.replace_tag)

pub tagged-append :
    (now : ℕ) (app tag : GoString) (es : List Entry) (new : Entry)
    → tagged now app tag (es ++ new ∷ []) ≡ (tagged now app tag es || tagged now app tag (new ∷ []))
unfolding tagged
tagged-append now app tag [] new = refl
tagged-append now app tag ((n, m) ∷ es) new = ground (arith, tagged-append now app tag es new)

-- A new entry that has not expired is live, it takes the place of the live entries of its
-- application with its replace tag if it has one, and all others stay, in their order.
pub live_entries-append :
    (now : ℕ) (es : List Entry) (new : Entry)
    → before new.1 now ≡ false
    → live_entries now (es ++ new ∷ [])
      ≡ select (λ e. not (replaced_by new e)) (live_entries now es) ++ new ∷ []
unfolding live_entries tagged
live_entries-append now [] new h = ground arith
live_entries-append now ((n, m) ∷ es) (n', m') h = ground (
  arith,
  live_entries-append now es (n', m') h,
  tagged-append now n.app_id m.replace_tag es (n', m'),
  str_eq_iff n'.app_id n.app_id,
  str_eq_iff n.app_id n'.app_id,
  str_eq_iff m'.replace_tag m.replace_tag,
  str_eq_iff m.replace_tag m'.replace_tag,
)
