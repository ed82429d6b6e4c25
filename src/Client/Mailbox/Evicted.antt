-- ===== src/Client/Mailbox/Evicted.antt =====
-- client/service/mbox.go: what evicting messages leaves of the slices.
use mathlib.Core.List.{append_assoc}
use push_component.Base.{
  ℕ, zero, suc, ◌+◌, ◌≤◌, ◌≡◌, refl, sym, ap, ◌∙◌, subst, ◌⊎◌, inl, inr, List, [], ◌∷◌, ◌++◌,
  GoString, length, take, drop, replicate, ltb, arith, Bool-cases, length-append, length-drop,
  length-take, drop-append, drop_all,
}
use push_component.Client.Mailbox.{MBox, evict_loop, blank, all_messages}

abbrev pub size_of : List GoString → ℕ
size_of [] = 0
size_of (m ∷ ms) = length m + size_of ms

abbrev pub all_nids : MBox → List GoString
all_nids box = drop box.evicted box.nids

-- The two slices go together, and the size is that of the messages held.
pub record IsSized (box : MBox) : Type 0 where
  pub within : box.evicted ≤ length box.messages
  pub paired : length box.nids ≡ length box.messages
  pub sized : box.cur_size ≡ size_of (all_messages box)

length-replicate : (n : ℕ) → length (replicate {A = GoString} n []) ≡ n
length-replicate zero = refl
length-replicate (suc n) = ap suc (length-replicate n)

drop-drop : (i c : ℕ) (xs : List GoString) → drop (i + c) xs ≡ drop c (drop i xs)
drop-drop zero c xs = let e : 0 + c ≡ c = omega arith in rw e
drop-drop (suc i) c [] = drop_all (suc i + c) [] (omega arith) ∙ sym (drop_all c [] (omega arith))
drop-drop (suc i) c (x ∷ xs) =
    let e : suc i + c ≡ suc (i + c) = omega arith in rw e (drop-drop i c xs)

-- Making evicted entries empty does not touch the others.
pub drop-blank :
    (i c : ℕ) (xs : List GoString)
    → i + c ≤ length xs
    → drop (i + c) (blank i c xs) ≡ drop c (drop i xs)
unfolding blank
drop-blank i c xs h =
    let front : List GoString = take i xs ++ replicate c [] in
    let width : length front ≡ i + c =
      omega
        (arith, length-append (take i xs) (replicate c []), length-take i xs, length-replicate c) in
    ap (drop (i + c)) (sym (append_assoc (take i xs) (replicate c []) (drop (i + c) xs)))
    ∙ subst (λ n. drop n (front ++ drop (i + c) xs) ≡ drop (i + c) xs) width (drop-append front _)
    ∙ drop-drop i c xs

pub length-blank :
    (i c : ℕ) (xs : List GoString) → i + c ≤ length xs → length (blank i c xs) ≡ length xs
unfolding blank
length-blank i c xs h = omega (
  arith,
  length-append (take i xs) (replicate c [] ++ drop (i + c) xs),
  length-append (replicate c []) (drop (i + c) xs),
  length-take i xs,
  length-replicate c,
  length-drop (i + c) xs,
)

-- The loop evicts some of the messages, counts their size, and stops at enough or at the end.
pub evict_loop_lem :
    (sz done : ℕ) (ms : List GoString)
    → let (count, size) = evict_loop sz done ms in
      (count ≤ length ms)
      × (size + size_of (drop count ms) ≡ done + size_of ms)
      × ((sz ≤ size) ⊎ (count ≡ length ms))
unfolding evict_loop
evict_loop_lem sz done [] = (omega arith, omega arith, inr refl)
evict_loop_lem sz done (m ∷ ms) = elim (Bool-cases (ltb done sz)) [
  | inl more ↦
      let (c, s, e) = evict_loop_lem sz (done + length m) ms in
      rw more (omega arith, omega arith, ground (arith, e))
  | inr enough ↦ rw enough (omega arith, omega arith, inl (ground (arith, enough)))
]
