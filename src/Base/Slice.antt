-- ===== src/Base/Slice.antt =====
-- Go's slices: the elements up to the length, and those of the backing array between the length and
-- the capacity, which a later slice expression reaches again.
use Prim.Native.Nat.{ℕ, ◌+◌, ◌-◌, ◌≤◌}
use mathlib.Core.Path.{◌≡◌}
use native.Mathlib.Omega.{arith}
use mathlib.Core.Bool.{true, ◌&&◌}
use mathlib.Core.List.{List, [], ◌++◌}
use mathlib.Core.Option.{Option, none, some}
use push_component.Base.Tests.{leb, if◌then◌else◌}
use push_component.Base.Lists.{
  length, take, drop, length-append, take-append_left, drop-append_left, take-append, drop-append,
}

pub record Slice {ℓ} (A : Type ℓ) : Type ℓ where
  pub elems : List A
  pub beyond : List A

module _ {ℓ} {A : Type ℓ} where
  abbrev pub of_list : List A → Slice A
  of_list xs = record { elems = xs; beyond = [] }

  -- s[lo:hi]; `none` where Go panics.
  unfoldable pub slice : ℕ → ℕ → Slice A → Option (Slice A)
  slice lo hi s =
      if leb lo hi && leb hi (length (s.elems ++ s.beyond))
      then some (record {
        elems = take (hi - lo) (drop lo (s.elems ++ s.beyond));
        beyond = drop (hi - lo) (drop lo (s.elems ++ s.beyond));
      })
      else none

  -- s[0:i] within the length.
  pub slice_prefix :
      (i : ℕ) (s : Slice A)
      → i ≤ length s.elems
      → slice 0 i s ≡ some (record { elems = take i s.elems; beyond = drop i s.elems ++ s.beyond })
  unfolding slice
  slice_prefix i s h =
      let same : i - 0 ≡ i = omega arith in
      let within : (leb 0 i && leb i (length (s.elems ++ s.beyond))) ≡ true =
        ground (arith, length-append s.elems s.beyond) in
      rw
        (within, same, take-append_left i s.elems s.beyond h, drop-append_left i s.elems s.beyond h)

  -- s[len(s):n] up to a length that the slice had before it was cut.
  pub slice_rest :
      (xs ys zs : List A) (n : ℕ)
      → n ≡ length xs + length ys
      → slice (length xs) n (record { elems = xs; beyond = ys ++ zs })
        ≡ some (record { elems = ys; beyond = zs })
  unfolding slice
  slice_rest xs ys zs n h =
      let width : n - length xs ≡ length ys = omega arith in
      let within : (leb (length xs) n && leb n (length (xs ++ (ys ++ zs)))) ≡ true =
        ground (arith, length-append xs (ys ++ zs), length-append ys zs) in
      rw (within, width, drop-append xs (ys ++ zs), take-append ys zs, drop-append ys zs)
