-- ===== src/Prelude/Sort.antt =====
-- `sort.Strings` and `sort.Slice`, as insertion sort: the order of equal elements, which Go leaves
-- open, is that of the input.
use Prim.Native.Nat.{suc}
use Prim.Native.String.{String}
use mathlib.Core.Path.{◌≡◌, refl, ap, ◌∙◌}
use mathlib.Core.Bool.{Bool, true, false}
use mathlib.Core.List.{List, [], ◌∷◌}
use native.Mathlib.Omega.{arith}
use text.Mathlib.Text.{◌==◌}
use text.Mathlib.TextEquality.{eq_iff}
use hubnot.Prelude.Tests.{if◌then◌else◌}
use hubnot.Prelude.Lists.{length, All, is_empty}
use hubnot.Prelude.Strings.{str_ltb, mem, distinct}

module _ {ℓ} {A : Type ℓ} (less : A → A → Bool) where
  unfoldable pub place : A → List A → List A
  place x [] = x ∷ []
  place x (y ∷ ys) = if less y x then y ∷ place x ys else x ∷ y ∷ ys

  -- `sort.Slice(xs, less)`
  unfoldable pub sort_by : List A → List A
  unfolding place
  sort_by [] = []
  sort_by (x ∷ xs) = place x (sort_by xs)

  pub length-place : (x : A) (xs : List A) → length (place x xs) ≡ suc (length xs)
  unfolding place
  length-place x [] = refl
  length-place x (y ∷ ys) = ground (arith, length-place x ys)

  pub length-sort_by : (xs : List A) → length (sort_by xs) ≡ length xs
  unfolding sort_by
  length-sort_by [] = refl
  length-sort_by (x ∷ xs) = length-place x (sort_by xs) ∙ ap suc (length-sort_by xs)

  All-place {κ} : (P : A → Type κ) (x : A) (xs : List A) → P x → All P xs → All P (place x xs)
  unfolding place
  All-place P x [] p h = (p, h)
  All-place P x (y ∷ ys) p h = go (less y x) (All-place P x ys p h.1)
    where
      go : (b : Bool) → All P (place x ys) → All P (if b then y ∷ place x ys else x ∷ y ∷ ys)
      go true r = (h.0, r)
      go false r = (p, h)

  pub All-sort_by {κ} : (P : A → Type κ) (xs : List A) → All P xs → All P (sort_by xs)
  unfolding sort_by
  All-sort_by P [] h = h
  All-sort_by P (x ∷ xs) h = All-place P x (sort_by xs) h.0 (All-sort_by P xs h.1)

  place-All {κ} : (P : A → Type κ) (x : A) (xs : List A) → All P (place x xs) → P x × All P xs
  unfolding place
  place-All P x [] h = h
  place-All P x (y ∷ ys) h = go (λ k. place-All P x ys k) (less y x) h
    where
      go :
          (All P (place x ys) → P x × All P ys)
          → (b : Bool) → All P (if b then y ∷ place x ys else x ∷ y ∷ ys)
          → P x × All P (y ∷ ys)
      go back true r = let (p, rest) = back r.1 in (p, (r.0, rest))
      go back false r = r

  pub sort_by-All {κ} : (P : A → Type κ) (xs : List A) → All P (sort_by xs) → All P xs
  unfolding sort_by
  sort_by-All P [] h = h
  sort_by-All P (x ∷ xs) h =
      let (p, rest) = place-All P x (sort_by xs) h in (p, sort_by-All P xs rest)

-- `sort.Strings(xs)`
unfoldable pub sort_strings : List String → List String
sort_strings xs = sort_by str_ltb xs

pub sort_nil : sort_strings [] ≡ []
unfolding sort_strings sort_by
sort_nil = refl

mem-place :
    (a x : String) (xs : List String)
    → mem a (place str_ltb x xs) ≡ (if x == a then true else mem a xs)
unfolding place mem
mem-place a x [] = refl
mem-place a x (y ∷ ys) = ground (arith, mem-place a x ys)

pub mem-sort_strings : (a : String) (xs : List String) → mem a (sort_strings xs) ≡ mem a xs
unfolding sort_strings sort_by mem
mem-sort_strings a [] = refl
mem-sort_strings a (x ∷ xs) =
    ground (arith, mem-place a x (sort_by str_ltb xs), mem-sort_strings a xs)

distinct-place :
    (x : String) (xs : List String)
    → mem x xs ≡ false
    → distinct xs ≡ true
    → distinct (place str_ltb x xs) ≡ true
unfolding place distinct
distinct-place x [] m h = refl
distinct-place x (y ∷ ys) m h =
    ground (arith, distinct-place x ys, mem-place y x ys, eq_iff x y, eq_iff y x)

pub distinct-sort_strings :
    (xs : List String) → distinct xs ≡ true → distinct (sort_strings xs) ≡ true
unfolding sort_strings sort_by distinct
distinct-sort_strings [] h = refl
distinct-sort_strings (x ∷ xs) h =
    ground (
      arith,
      distinct-place x (sort_by str_ltb xs),
      mem-sort_strings x xs,
      distinct-sort_strings xs,
    )

-- Sorting all but the first of distinct values.
pub distinct-cons-sort_strings :
    (a : String) (xs : List String)
    → distinct (a ∷ xs) ≡ true
    → distinct (a ∷ sort_strings xs) ≡ true
unfolding distinct
distinct-cons-sort_strings a xs d =
    ground (arith, mem-sort_strings a xs, distinct-sort_strings xs (ground arith))

pub is_empty-sort_strings :
    (x : String) (xs : List String) → is_empty (sort_strings (x ∷ xs)) ≡ false
unfolding sort_strings
is_empty-sort_strings x xs = ground (arith, length-sort_by str_ltb (x ∷ xs))
