-- ===== src/Protocol/Split.antt =====
-- The loop that sends a splittable message, over any kind of message: each part fits the wire, and
-- the parts together are the whole. The session of server/session/session.go runs this loop, and
-- the two kinds of message are in the children.
pub mod Broadcast
pub mod Notifications
use mathlib.Core.List.{append-nil}
use push_component.Base.{
  ℕ, zero, suc, ◌+◌, ◌*◌, ◌-◌, ◌≤◌, ◌<◌, ◌≡◌, refl, ap, ◌∙◌, sym, ◌⊎◌, inl, inr, Bool, true, false,
  List, [], ◌∷◌, ◌++◌, Option, none, some, ◌>>=◌, arith, length, take, drop, ltb, All, Bool-cases,
  Option-cases, length-drop, take-append-drop, length-append, take-append, drop-append, All-drop,
}
use push_component.Base.Slice.{Slice, slice}
use push_component.Protocol.Messages.{overflow_at, max_payload_size}

module _ {ℓ} {A : Type ℓ} where
  pub total : (A → ℕ) → List A → ℕ
  total weight [] = 0
  total weight (x ∷ xs) = weight x + total weight xs

  -- No overflow: all the elements fit.
  pub overflow_at-eq-none :
      (weight : A → ℕ) (size i : ℕ) (xs : List A)
      → size ≤ max_payload_size
      → overflow_at weight size i xs ≡ none
      → size + total weight xs ≤ max_payload_size
  unfolding overflow_at total
  overflow_at-eq-none weight size i [] h e = omega arith
  overflow_at-eq-none weight size i (x ∷ xs) h e =
      ground (arith, overflow_at-eq-none weight (size + weight x) (i + 1) xs)

  -- An overflow at some index: it is one of the list, and the elements before it fit.
  pub overflow_at-eq-some :
      (weight : A → ℕ) (size i k : ℕ) (xs : List A)
      → size ≤ max_payload_size
      → overflow_at weight size i xs ≡ some k
      → (j : ℕ) × (k ≡ i + j)
        × (j < length xs)
        × (size + total weight (take j xs) ≤ max_payload_size)
  unfolding overflow_at total
  overflow_at-eq-some weight size i k [] h e = cc
  overflow_at-eq-some weight size i k (x ∷ xs) h e =
      elim (Bool-cases (ltb max_payload_size (size + weight x))) [
        | inl over ↦ (0, ground arith, omega arith, omega arith)
        | inr fits ↦
            let (j, p, q, r) =
              overflow_at-eq-some weight (size + weight x) (i + 1) k xs (ground arith)
                (rw fits at e) in
            (suc j, omega arith, omega arith, omega arith)
      ]

  -- A first element that fits alone is no overflow.
  pub overflow_at_pos :
      (weight : A → ℕ) (xs : List A) (k : ℕ)
      → All (λ x. weight x ≤ max_payload_size) xs
      → overflow_at weight 0 0 xs ≡ some k
      → 0 < k
  unfolding overflow_at
  overflow_at_pos weight [] k h e = cc
  overflow_at_pos weight (x ∷ xs) k h e =
      let no : ltb max_payload_size (0 + weight x) ≡ false = ground (arith, h.0) in
      let (j, p, q, r) =
        overflow_at-eq-some weight (0 + weight x) 1 k xs (omega (arith, h.0)) (rw no at e) in
      omega arith

-- `for { done := Split(); send; if done { break } }`: the messages as they are sent; `none` where
-- the fuel ends first, or a call panics.
unfoldable pub send_all {ℓ} : {M : Type ℓ} → (M → Option (M × Bool)) → ℕ → M → Option (List M)
send_all split zero m = none
send_all split (suc fuel) m = elim (split m) [
  | none ↦ none
  | some (m', done) ↦ elim done [
    | true ↦ some (m' ∷ [])
    | false ↦ send_all split fuel m' >>= λ rest. some (m' ∷ rest)
  ]
]

module _ {ℓ κ} {M : Type ℓ} {A : Type κ} (parts : M → List A) where
  unfoldable pub all_parts : List M → List A
  all_parts [] = []
  all_parts (m ∷ ms) = parts m ++ all_parts ms

  -- Every message's level is that of the message before it, advanced by its own elements.
  abbrev pub Levels : (M → ℕ) → (ℕ → List A → ℕ) → ℕ → List M → Type 0
  Levels level advance prev [] = Unit
  Levels level advance prev (m ∷ ms) =
      (level m ≡ advance prev (parts m)) × Levels level advance (level m) ms

-- What the loop asks of a kind of message: while a message is `Ready` to send the elements `xs`
-- behind the level `prev`, a call of `Split` either finishes, or cuts off a part that is not empty
-- and leaves the message ready for the others.
module _ {ℓ κ μ} {M : Type ℓ} {A : Type κ} (split : M → Option (M × Bool)) (parts : M → List A)
    (level : M → ℕ) (advance : ℕ → List A → ℕ) (weight : A → ℕ) (Ready : ℕ → List A → M → Type μ)
    (finishes : (prev : ℕ) (xs : List A) (m : M)
      → Ready prev xs m
      → overflow_at weight 0 0 xs ≡ none
      → (m' : M) × (split m ≡ some (m', true)) × (parts m' ≡ xs) × (level m' ≡ advance prev xs))
    (cuts : (prev : ℕ) (xs : List A) (m : M) (i : ℕ)
      → Ready prev xs m
      → overflow_at weight 0 0 xs ≡ some i
      → 0 < i
      → i < length xs
      → (m' : M) × (split m ≡ some (m', false))
        × (parts m' ≡ take i xs)
        × (level m' ≡ advance prev (take i xs))
        × Ready (level m') (drop i xs) m') where
  abbrev pub Sends : ℕ → ℕ → M → List A → List M → Type (ℓ ⊔ κ)
  Sends fuel prev m xs ms =
      (send_all split fuel m ≡ some ms)
      × (all_parts parts ms ≡ xs)
      × All (λ m. total weight (parts m) ≤ max_payload_size) ms
      × Levels parts level advance prev ms

  -- Where each element fits by itself and there is fuel for one message each, the loop ends, and
  -- its messages carry all the elements, in order, each within the limit.
  pub send_all_lem :
      (fuel prev : ℕ) (xs : List A) (m : M)
      → Ready prev xs m
      → All (λ x. weight x ≤ max_payload_size) xs
      → length xs < fuel
      → (ms : List M) × Sends fuel prev m xs ms
  unfolding send_all all_parts
  send_all_lem zero prev xs m ready fit more = absurd (omega arith)
  send_all_lem (suc fuel) prev xs m ready fit more =
      elim (Option-cases (overflow_at weight 0 0 xs)) [
        | inl e ↦
            let (m', s, p, l) = finishes prev xs m ready e in
            let fits : total weight (parts m') ≤ max_payload_size =
              rw p (omega (arith, overflow_at-eq-none weight 0 0 xs (omega arith) e)) in
            (m' ∷ [], (rw (s, send_all), append-nil (parts m') ∙ p, (fits, tt), (rw p l, tt)))
        | inr (i, e) ↦
            let (j, here, inside, below) = overflow_at-eq-some weight 0 0 i xs (omega arith) e in
            let e' : overflow_at weight 0 0 xs ≡ some j = rw e (ap some (omega arith)) in
            let some_room : 0 < j = overflow_at_pos weight xs j fit e' in
            let (m', s, p, l, ready') = cuts prev xs m j ready e' some_room inside in
            let (ms, (sent, parts_eq, fits, levels)) =
              send_all_lem fuel (level m') (drop j xs) m' ready' (All-drop _ j xs fit)
                (omega (arith, length-drop j xs)) in
            let fits' : total weight (parts m') ≤ max_payload_size = rw p (omega arith) in
            (
              m' ∷ ms,
              (
                rw (s, send_all, sent, ◌>>=◌),
                rw (p, parts_eq) (take-append-drop j xs),
                (fits', fits),
                (rw p l, levels),
              ),
            )
      ]
