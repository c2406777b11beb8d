-- ===== src/Prelude/Strings.antt =====
-- Texts: Go's operations on `string`, membership in a list of texts, and distinctness.
use Prim.Native.Nat.{suc, ◌≤◌, Ordering}
use Prim.Native.String.{String, compare}
use mathlib.Core.Path.{◌≡◌, refl}
use mathlib.Core.Bool.{Bool, true, false, not, ◌&&◌, ◌||◌}
use mathlib.Core.List.{List, [], ◌∷◌, ◌++◌}
use native.Mathlib.Omega.{arith}
use text.Mathlib.Text.{◌==◌}
use text.Mathlib.TextEquality.{eq_iff}
use text.Mathlib.TextPositions.{eq_refl}
use hubnot.Prelude.Tests.{if◌then◌else◌, Bool-cases}
use hubnot.Prelude.Lists.{length, All, select}
use mathlib.Core.Path.{subst}
use mathlib.Core.Logic.{inl, inr}

-- `s < t` on strings: by bytes, which for UTF-8 is by code points.
unfoldable pub str_ltb : String → String → Bool
str_ltb s t = elim (compare s t) [ Ordering.lt ↦ true | _ ↦ false ]

-- Set membership and the removal of one value; a Go `map[string]bool` used as a set is a list.
unfoldable pub mem : String → List String → Bool
mem a [] = false
mem a (x ∷ xs) = if x == a then true else mem a xs

unfoldable pub distinct : List String → Bool
unfolding mem
distinct [] = true
distinct (x ∷ xs) = not (mem x xs) && distinct xs

unfoldable pub remove : String → List String → List String
remove a [] = []
remove a (x ∷ xs) = if x == a then xs else x ∷ remove a xs

pub mem-append : (a : String) (xs ys : List String) → mem a (xs ++ ys) ≡ mem a xs || mem a ys
unfolding mem
mem-append a [] ys = refl
mem-append a (x ∷ xs) ys = ground (arith, mem-append a xs ys)

pub mem-cons_self : (a : String) (xs : List String) → mem a (a ∷ xs) ≡ true
unfolding mem
mem-cons_self a xs = rw (eq_refl a)

pub distinct-snoc :
    (xs : List String) (a : String)
    → distinct xs ≡ true
    → mem a xs ≡ false
    → distinct (xs ++ a ∷ []) ≡ true
unfolding distinct mem
distinct-snoc [] a d m = refl
distinct-snoc (x ∷ xs) a d m =
    ground (arith, distinct-snoc xs a, mem-append x xs (a ∷ []), eq_iff x a, eq_iff a x)

mem-remove :
    (a b : String) (xs : List String)
    → (b == a) ≡ false
    → mem a xs ≡ true
    → mem a (remove b xs) ≡ true
unfolding mem remove
mem-remove a b [] n h = h
mem-remove a b (x ∷ xs) n h =
    ground (arith, mem-remove a b xs n, eq_iff x a, eq_iff x b, eq_iff b a)

length-remove :
    (a : String) (xs : List String) → mem a xs ≡ true → suc (length (remove a xs)) ≡ length xs
unfolding mem remove
length-remove a [] h = ground arith
length-remove a (x ∷ xs) h = ground (arith, length-remove a xs)

-- Every value of `xs` is one of `ys`.
abbrev pub Within : List String → List String → Type 0
Within xs ys = (a : String) → mem a xs ≡ true → mem a ys ≡ true

Within-remove :
    (x : String) (xs ys : List String)
    → mem x xs ≡ false
    → Within (x ∷ xs) ys
    → Within xs (remove x ys)
unfolding mem
Within-remove x xs ys n w a m =
    mem-remove a x ys (ground (arith, eq_iff x a)) (w a (ground (arith, m)))

-- The pigeonhole principle: distinct values within `ys` are at most as many as `ys` has.
pub length-le-of_distinct :
    (xs ys : List String) → distinct xs ≡ true → Within xs ys → length xs ≤ length ys
unfolding distinct mem
length-le-of_distinct [] ys d w = omega arith
length-le-of_distinct (x ∷ xs) ys d w = omega (
  arith,
  length-le-of_distinct xs (remove x ys) (ground arith) (Within-remove x xs ys (ground arith) w),
  length-remove x ys (w x (mem-cons_self x xs)),
)

-- What holds of all values of a list holds of each.
pub All-mem {κ} :
    (P : String → Type κ) (xs : List String) (a : String) → All P xs → mem a xs ≡ true → P a
unfolding mem
All-mem P [] a h m = absurd (ground (arith, m))
All-mem P (x ∷ xs) a h m = elim (Bool-cases (x == a)) [
  | inl same ↦ subst P ((eq_iff x a).0 same) h.0
  | inr other ↦ All-mem P xs a h.1 (ground (arith, m))
]

pub mem-select :
    (keep : String → Bool) (a : String) (xs : List String)
    → mem a (select keep xs) ≡ keep a && mem a xs
unfolding mem select
mem-select keep a [] = ground (arith, Bool-cases (keep a))
mem-select keep a (x ∷ xs) = ground (arith, mem-select keep a xs, eq_iff x a)
