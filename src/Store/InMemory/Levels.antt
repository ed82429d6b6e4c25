-- ===== src/Store/InMemory/Levels.antt =====
-- Which channel a call touches, and the level of a channel.
use push_component.Base.{
  ℕ, suc, ◌+◌, ◌<◌, ◌≡◌, ◌≢◌, refl, sym, ap, ◌∙◌, inl, inr, false, List, [], ◌∷◌, some, ◌>>=◌,
  GoString, string_Eq, str_eq, str_eq_iff, get_or, if◌then◌else◌, lookup, insert, arith,
  lookup-insert, Option-cases, Bool-cases,
}
use push_component.Base.Int64.{add64, of_int, modulus}
use push_component.Store.InMemory.{
  Channel, Store, empty_channel, append_to, append_to_channel, append_to_unicast_channel,
  scrub_criteria, scrub_channel, scrub, drop_in_channel, drop_by_msg_id,
}
use push_component.Store.InMemory.Invariant.{
  Call, appends, appends_unicast, scrubs, drops, after, run, channel_of, channel_at,
}

pub lookup-insert_ne :
    (k j : GoString) (ch : Channel) (sto : Store)
    → str_eq k j ≡ false
    → lookup j (insert k ch sto) ≡ lookup j sto
lookup-insert_ne k j ch sto h = rw (lookup-insert k j ch sto, h)

pub lookup-insert_self :
    (k : GoString) (ch : Channel) (sto : Store) → lookup k (insert k ch sto) ≡ some ch
lookup-insert_self k ch sto = rw (lookup-insert k k ch sto, (str_eq_iff k k).1 refl)

pub apart : (j k : GoString) → j ≢ k → str_eq j k ≡ false
apart j k h = elim (Bool-cases (str_eq j k)) [
  | inl e ↦ absurd (h ((str_eq_iff j k).0 e))
  | inr e ↦ e
]

-- A call on one channel leaves every other channel as it was.
lookup-after :
    (sto : Store) (c : Call) (k : GoString)
    → channel_of c ≢ k
    → lookup k (after sto c) ≡ lookup k sto
unfolding after append_to_channel append_to_unicast_channel append_to scrub drop_by_msg_id
lookup-after sto (appends j payload expiration) k h = lookup-insert_ne j k _ sto (apart j k h)
lookup-after sto (appends_unicast j app payload msg m) k h =
    lookup-insert_ne j k _ sto (apart j k h)
lookup-after sto (scrubs now j criteria) k h = elim (Option-cases (scrub_criteria criteria)) [
  | inl e ↦ rw (e, ◌>>=◌)
  | inr ((app, tag), e) ↦ elim (Option-cases (lookup j sto)) [
    | inl missing ↦ rw (e, ◌>>=◌, missing)
    | inr (ch, found) ↦ rw (e, ◌>>=◌, found) (lookup-insert_ne j k _ sto (apart j k h))
  ]
]
lookup-after sto (drops j targets) k h = elim (Option-cases (lookup j sto)) [
  | inl missing ↦ rw (missing, drop_by_msg_id)
  | inr (ch, found) ↦ rw (found, drop_by_msg_id) (lookup-insert_ne j k _ sto (apart j k h))
]

abbrev pub level_of : GoString → Store → ℕ
level_of k sto = (channel_at k sto).top_level

-- How many broadcasts a list of calls stores in a channel.
unfoldable pub broadcasts : GoString → List Call → ℕ
broadcasts k [] = 0
broadcasts k (appends j payload expiration ∷ cs) =
    let rest = broadcasts k cs in if str_eq j k then suc rest else rest
broadcasts k (c ∷ cs) = broadcasts k cs

level_of-insert :
    (j k : GoString) (ch : Channel) (sto : Store)
    → level_of k (insert j ch sto) ≡ (if str_eq j k then ch.top_level else level_of k sto)
level_of-insert j k ch sto = ground (arith, lookup-insert j k ch sto)

-- A new value of a channel at level `level_of j sto + inc`.
level_of-raised :
    (j k : GoString) (ch : Channel) (sto : Store) (inc : ℕ)
    → ch.top_level ≡ add64 (level_of j sto) inc
    → level_of k sto < modulus
    → level_of k (insert j ch sto) ≡ add64 (level_of k sto) (if str_eq j k then inc else 0)
level_of-raised j k ch sto inc h bound = elim (Bool-cases (str_eq j k)) [
  | inl e ↦
      let same : j ≡ k = (str_eq_iff j k).0 e in rw (level_of-insert j k ch sto, e) (rw same at h)
  | inr e ↦ rw (level_of-insert j k ch sto, e) (omega arith)
]

level_of-same :
    (j k : GoString) (ch new : Channel) (sto : Store)
    → lookup j sto ≡ some ch
    → new.top_level ≡ ch.top_level
    → level_of k (insert j new sto) ≡ level_of k sto
level_of-same j k ch new sto found h = elim (Bool-cases (str_eq j k)) [
  | inl e ↦
      let same : j ≡ k = (str_eq_iff j k).0 e in
      let found' : lookup k sto ≡ some ch = rw same at found in
      rw (level_of-insert j k new sto, e)
        (h ∙ sym (ap (λ o. (get_or o empty_channel).top_level) found'))
  | inr e ↦ rw (level_of-insert j k new sto, e)
]

level_of-after :
    (sto : Store) (c : Call) (k : GoString)
    → level_of k sto < modulus
    → level_of k (after sto c) ≡ add64 (level_of k sto) (of_int (broadcasts k (c ∷ [])))
unfolding after append_to_channel append_to_unicast_channel append_to scrub drop_by_msg_id
    broadcasts drop_in_channel scrub_channel
level_of-after sto (appends j payload expiration) k h =
    level_of-raised j k _ sto 1 refl h ∙ ground arith
level_of-after sto (appends_unicast j app payload msg m) k h =
    level_of-raised j k _ sto 0 refl h ∙ ground arith
level_of-after sto (scrubs now j criteria) k h = elim (Option-cases (scrub_criteria criteria)) [
  | inl e ↦ rw (e, ◌>>=◌) (omega arith)
  | inr ((app, tag), e) ↦ elim (Option-cases (lookup j sto)) [
    | inl missing ↦ rw (e, ◌>>=◌, missing) (omega arith)
    | inr (ch, found) ↦ rw (e, ◌>>=◌, found) (level_of-same j k ch _ sto found refl ∙ omega arith)
  ]
]
level_of-after sto (drops j targets) k h = elim (Option-cases (lookup j sto)) [
  | inl missing ↦ rw (missing, drop_by_msg_id) (omega arith)
  | inr (ch, found) ↦
      rw (found, drop_by_msg_id) (level_of-same j k ch _ sto found refl ∙ omega arith)
]

broadcasts_cons :
    (k : GoString) (c : Call) (cs : List Call)
    → broadcasts k (c ∷ cs) ≡ broadcasts k (c ∷ []) + broadcasts k cs
unfolding broadcasts
broadcasts_cons k (appends j payload expiration) cs = ground arith
broadcasts_cons k (appends_unicast j app payload msg m) cs = omega arith
broadcasts_cons k (scrubs now j criteria) cs = omega arith
broadcasts_cons k (drops j targets) cs = omega arith

-- After any calls the level of a channel is its level before them, advanced by one for each
-- broadcast stored in that channel, in 64-bit arithmetic: no other call moves it, unicasts, scrubs
-- and drops on the same channel included.
pub level_of-run :
    (sto : Store) (cs : List Call) (k : GoString)
    → level_of k sto < modulus
    → level_of k (run sto cs) ≡ add64 (level_of k sto) (of_int (broadcasts k cs))
unfolding run
level_of-run sto [] k h = unfold broadcasts in omega arith
level_of-run sto (c ∷ cs) k h = omega (
  arith,
  level_of-after sto c k h,
  level_of-run (after sto c) cs k (omega (arith, level_of-after sto c k h)),
  broadcasts_cons k c cs,
)
