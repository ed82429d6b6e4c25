-- ===== src/Helpers/Counts.antt =====
-- How often a name stands in a list, and sums over a map's values: what changes when a map does.
use push_component.Base.{
  ℕ, ◌+◌, ◌≡◌, refl, subst, inl, inr, false, List, [], ◌∷◌, ◌++◌, none, some, GoString, string_Eq,
  str_eq, str_eq_iff, length, if◌then◌else◌, Map, lookup, insert, delete, keys, elem, IsDistinct,
  arith, Bool-cases,
}

abbrev pub count : GoString → List GoString → ℕ
count a [] = 0
count a (x ∷ xs) = (if str_eq x a then 1 else 0) + count a xs

pub count-append :
    (a : GoString) (xs ys : List GoString) → count a (xs ++ ys) ≡ count a xs + count a ys
count-append a [] ys = omega arith
count-append a (x ∷ xs) ys = omega (arith, count-append a xs ys)

pub count-keys-delete :
    {V : Type 0} (a b : GoString) (m : Map GoString V)
    → count b (keys (delete a m)) ≡ (if str_eq a b then 0 else count b (keys m))
unfolding delete
count-keys-delete a b [] = ground arith
count-keys-delete a b ((k, v) ∷ m) =
    ground (arith, count-keys-delete a b m, str_eq_iff k a, str_eq_iff k b, str_eq_iff a b)

pub length-delete :
    {V : Type 0} (a : GoString) (m : Map GoString V)
    → length (delete a m) + count a (keys m) ≡ length m
unfolding delete
length-delete a [] = omega arith
length-delete a ((k, v) ∷ m) = ground (arith, length-delete a m)

pub count-keys-insert :
    {V : Type 0} (a b : GoString) (v : V) (m : Map GoString V)
    → count a (keys m) ≡ 0
    → count b (keys (insert a v m)) ≡ count b (keys m) + (if str_eq a b then 1 else 0)
unfolding insert
count-keys-insert a b v [] h = ground arith
count-keys-insert a b v ((k, w) ∷ m) h = ground (arith, count-keys-insert a b v m, str_eq_iff k a)

pub length-insert :
    {V : Type 0} (a : GoString) (v : V) (m : Map GoString V)
    → count a (keys m) ≡ 0
    → length (insert a v m) ≡ length m + 1
unfolding insert
length-insert a v [] h = omega arith
length-insert a v ((k, w) ∷ m) h = ground (arith, length-insert a v m)

-- The sum of the values' weights.
module _ {V : Type 0} (w : V → ℕ) where
  abbrev pub weigh : Map GoString V → ℕ
  weigh [] = 0
  weigh ((k, v) ∷ m) = w v + weigh m

  pub weigh-insert_new :
      (k : GoString) (v : V) (m : Map GoString V)
      → lookup k m ≡ none
      → weigh (insert k v m) ≡ weigh m + w v
  unfolding lookup insert
  weigh-insert_new k v [] h = omega arith
  weigh-insert_new k v ((j, u) ∷ m) h = ground (arith, weigh-insert_new k v m)

  pub weigh-insert_old :
      (k : GoString) (v u : V) (m : Map GoString V)
      → lookup k m ≡ some u
      → weigh (insert k v m) + w u ≡ weigh m + w v
  unfolding lookup insert
  weigh-insert_old k v u [] h = cc
  weigh-insert_old k v u ((j, t) ∷ m) h = elim (Bool-cases (str_eq j k)) [
    | inl here ↦ let same : t ≡ u = ground (arith, h, here) in rw (here, same) (omega arith)
    | inr there ↦
        let rest : lookup k m ≡ some u = ground (arith, h, there) in
        rw there (omega (arith, weigh-insert_old k v u m rest))
  ]

  weigh-delete_none :
      (k : GoString) (m : Map GoString V) → elem k (keys m) ≡ false → weigh (delete k m) ≡ weigh m
  unfolding delete
  weigh-delete_none k [] h = refl
  weigh-delete_none k ((j, t) ∷ m) h = ground (arith, weigh-delete_none k m)

  pub weigh-delete :
      (k : GoString) (u : V) (m : Map GoString V)
      → IsDistinct (keys m)
      → lookup k m ≡ some u
      → weigh (delete k m) + w u ≡ weigh m
  unfolding lookup delete
  weigh-delete k u [] d h = cc
  weigh-delete k u ((j, t) ∷ m) d h = elim (Bool-cases (str_eq j k)) [
    | inl here ↦
        let same : t ≡ u = ground (arith, h, here) in
        let is : j ≡ k = (str_eq_iff j k).0 here in
        let gone : elem k (keys m) ≡ false = subst (λ i. elem i (keys m) ≡ false) is d.0 in
        rw (here, same) (omega (arith, weigh-delete_none k m gone))
    | inr there ↦
        let rest : lookup k m ≡ some u = ground (arith, h, there) in
        rw there (omega (arith, weigh-delete k u m d.1 rest))
  ]
