-- ===== src/Client/Redialer/Attempts.antt =====
-- util/redialer.go: the attempts of Redial. Whether the redialer is stopped before an attempt and
-- whether the attempt succeeds are given by its number; a wait that a stop cuts short is listed whole.
use push_component.Base.{
  ℕ, zero, suc, ◌+◌, ◌-◌, ◌%◌, ◌^◌, ◌<◌, ◌≤◌, ◌≡◌, refl, ap, subst, Bool, true, false, List, [],
  ◌∷◌, Option, none, some, length, get_elem?, get_or, ltb, if◌then◌else◌, arith,
}

-- What Redial returns, with its waits; it goes on, or it panics where there are no timeouts.
pub data Redialed : Type 0 where
  returned : ℕ → List ℕ → Redialed
  still_dialing : List ℕ → Redialed
  panics : Redialed

-- uint32
abbrev modulus32 : ℕ
modulus32 = 2 ^ 32

get_elem?_inside :
    (xs : List ℕ) (i : ℕ) → i < length xs → get_elem? xs i ≡ some (get_or (get_elem? xs i) 0)
get_elem?_inside [] i h = absurd (omega arith)
get_elem?_inside (x ∷ xs) zero h = refl
get_elem?_inside (x ∷ xs) (suc i) h = get_elem?_inside xs i (omega arith)

module _ (dials stopped : ℕ → Bool) (jitter : ℕ → ℕ) (timeouts : List ℕ) where
  -- The timeout of an attempt; the last one is that of all later attempts.
  abbrev timeout_of : ℕ → Option ℕ
  timeout_of attempts =
      get_elem? timeouts (if ltb attempts (length timeouts) then attempts else length timeouts - 1)

  -- The loop of Redial, for as many attempts as there is fuel, from the attempt `i` on.
  unfoldable pub redial_loop : ℕ → ℕ → Redialed
  redial_loop zero i = still_dialing []
  redial_loop (suc fuel) i =
      if stopped i
      then returned (i % modulus32) []
      else if dials i
      then returned ((i + 1) % modulus32) []
      else elim (timeout_of (i % modulus32)) [
        | none ↦ panics
        | some t ↦ elim (redial_loop fuel (suc i)) [
          | panics ↦ panics
          | still_dialing waits ↦ still_dialing ((t + jitter t) ∷ waits)
          | returned n waits ↦ returned n ((t + jitter t) ∷ waits)
        ]
      ]

  -- The waits behind so many attempts that fail, from the attempt `i` on.
  abbrev pub waits_from : ℕ → ℕ → List ℕ
  waits_from i zero = []
  waits_from i (suc n) = let t = get_or (timeout_of i) 0 in (t + jitter t) ∷ waits_from (suc i) n

  timeout_of_lem : (i : ℕ) → 0 < length timeouts → timeout_of i ≡ some (get_or (timeout_of i) 0)
  timeout_of_lem i h =
      get_elem?_inside timeouts (if ltb i (length timeouts) then i else length timeouts - 1)
        (ground (arith, h))

  -- Where there are timeouts, the redialer is not stopped, and the first attempt from `i` on that
  -- succeeds comes behind `n` that fail, with a number that 32 bits hold: Redial returns the number of
  -- attempts, and it has waited behind each that failed for its timeout with its jitter. There is fuel
  -- for one attempt more than fail.
  redial_loop_answered :
      (n i fuel : ℕ)
      → 0 < length timeouts
      → ((j : ℕ) → stopped j ≡ false)
      → ((j : ℕ) → i ≤ j → j < i + n → dials j ≡ false)
      → dials (i + n) ≡ true
      → n < fuel
      → i + n + 1 < modulus32
      → redial_loop fuel i ≡ returned (i + n + 1) (waits_from i n)
  unfolding redial_loop
  redial_loop_answered n i zero some_time go fail up more bound = absurd (omega arith)
  redial_loop_answered zero i (suc fuel) some_time go fail up more bound =
      let here : dials i ≡ true = subst (λ j. dials j ≡ true) (omega arith) up in
      rw (redial_loop, go i, here) (ap (λ n. returned n []) (omega (arith, bound)))
  redial_loop_answered (suc n) i (suc fuel) some_time go fail up more bound =
      let low : i % modulus32 ≡ i = omega (arith, bound) in
      let later =
        redial_loop_answered n (suc i) fuel some_time go
          (λ j above below. fail j (omega arith) (omega arith))
          (subst (λ j. dials j ≡ true) (omega arith) up) (omega arith) (omega arith) in
      rw
        (
          redial_loop,
          go i,
          fail i (omega arith) (omega arith),
          low,
          timeout_of_lem i some_time,
          later,
        )
        (ap (λ m. returned m (waits_from i (suc n))) (omega arith))
