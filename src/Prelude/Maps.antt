-- ===== src/Prelude/Maps.antt =====
-- A Go `map[string]V` as an association list, in the order in which `range` visits it.
use Prim.Native.String.{String}
use mathlib.Core.Path.{◌≡◌, refl, ap, ◌∙◌}
use Prim.Native.Nat.{suc}
use mathlib.Core.Bool.{Bool, true, false}
use mathlib.Core.Option.{Option, none, some}
use mathlib.Core.List.{List, [], ◌∷◌, ◌++◌}
use native.Mathlib.Omega.{arith}
use text.Mathlib.Text.{◌==◌}
use text.Mathlib.TextEquality.{eq_iff}
use text.Mathlib.TextPositions.{eq_refl}
use hubnot.Prelude.Tests.{if◌then◌else◌}
use hubnot.Prelude.Lists.{All, length}
use hubnot.Prelude.Strings.{mem, distinct, mem-cons_self}

abbrev pub Dict {ℓ} : Type ℓ → Type ℓ
Dict V = List (String × V)

module _ {ℓ} {V : Type ℓ} where
  -- `v, exists := m[k]`
  unfoldable pub lookup : String → Dict V → Option V
  lookup k [] = none
  lookup k ((j, v) ∷ m) = if j == k then some v else lookup k m

  -- `m[k] = v`
  unfoldable pub insert : String → V → Dict V → Dict V
  insert k v [] = (k, v) ∷ []
  insert k v ((j, w) ∷ m) = if j == k then (j, v) ∷ m else (j, w) ∷ insert k v m

  -- `_, exists := m[k]`
  abbrev pub present : Option V → Bool
  present none = false
  present (some v) = true

  abbrev pub keys : Dict V → List String
  keys [] = []
  keys ((k, v) ∷ m) = k ∷ keys m

  abbrev pub values : Dict V → List V
  values [] = []
  values ((k, v) ∷ m) = v ∷ values m

  pub length-keys : (m : Dict V) → length (keys m) ≡ length m
  length-keys [] = refl
  length-keys ((k, v) ∷ m) = ap suc (length-keys m)

  -- A look-up after an assignment.
  pub lookup-insert :
      (set get : String) (value : V) (table : Dict V)
      → lookup get (insert set value table) ≡ (if set == get then some value else lookup get table)
  unfolding insert lookup
  lookup-insert set get value [] = refl
  lookup-insert set get value ((first, held) ∷ table) =
      ground (
        arith,
        eq_iff first get,
        eq_iff first set,
        eq_iff set get,
        lookup-insert set get value table,
      )

  pub present-lookup : (k : String) (m : Dict V) → present (lookup k m) ≡ mem k (keys m)
  unfolding lookup mem
  present-lookup k [] = refl
  present-lookup k ((j, v) ∷ m) = ground (arith, present-lookup k m)

  mem-keys-insert :
      (k j : String) (v : V) (m : Dict V)
      → mem j (keys (insert k v m)) ≡ (if k == j then true else mem j (keys m))
  unfolding insert mem
  mem-keys-insert k j v [] = refl
  mem-keys-insert k j v ((i, w) ∷ m) =
      ground (arith, eq_iff k j, eq_iff i k, eq_iff i j, mem-keys-insert k j v m)

  -- A map has each key once, and an assignment keeps that.
  pub distinct-insert :
      (k : String) (v : V) (m : Dict V)
      → distinct (keys m) ≡ true
      → distinct (keys (insert k v m)) ≡ true
  unfolding insert distinct
  distinct-insert k v [] h = refl
  distinct-insert k v ((j, w) ∷ m) h =
      ground (arith, eq_iff j k, eq_iff k j, mem-keys-insert k j v m, distinct-insert k v m)

  pub All-insert {κ} :
      (P : String × V → Type κ) (k : String) (v : V) (m : Dict V)
      → P (k, v)
      → All P m
      → All P (insert k v m)
  unfolding insert
  All-insert P k v [] p h = (p, h)
  All-insert P k v ((j, w) ∷ m) p h = ground (arith, eq_iff j k, All-insert P k v m p h.1)

  lookup_within :
      (m n : Dict V)
      → ((k : String) → mem k (keys n) ≡ true → lookup k m ≡ lookup k n)
      → distinct (keys n) ≡ true
      → All (λ entry. lookup entry.0 m ≡ some entry.1) n
  unfolding distinct lookup mem
  lookup_within m [] same d = tt
  lookup_within m ((k, v) ∷ n) same d = (
    same k (mem-cons_self k (keys n)) ∙ ground (arith, eq_refl k),
    lookup_within m n (λ j h. same j (ground arith) ∙ ground (arith, eq_iff k j)) (ground arith),
  )

  -- Each entry of a map with distinct keys is found by its key.
  pub lookup_entries :
      (m : Dict V) → distinct (keys m) ≡ true → All (λ entry. lookup entry.0 m ≡ some entry.1) m
  lookup_entries m d = lookup_within m m (λ k h. refl) d

module _ {ℓ} {A : Type ℓ} where
  -- `m[k]` on a map to slices: a missing key is the nil slice.
  unfoldable pub slices : String → Dict (List A) → List A
  slices k [] = []
  slices k ((j, v) ∷ m) = if j == k then v else slices k m

  -- `m[k] = append(m[k], x)`
  unfoldable pub push : String → A → Dict (List A) → Dict (List A)
  push k x [] = (k, x ∷ []) ∷ []
  push k x ((j, v) ∷ m) = if j == k then (j, v ++ x ∷ []) ∷ m else (j, v) ∷ push k x m

  -- `for k := range m { m[k] = f(m[k]) }`
  unfoldable pub each : (List A → List A) → Dict (List A) → Dict (List A)
  each f [] = []
  each f ((k, v) ∷ m) = (k, f v) ∷ each f m

  pub slices-nil : (k : String) → slices k [] ≡ []
  unfolding slices
  slices-nil k = refl

  pub slices-push :
      (k j : String) (x : A) (m : Dict (List A))
      → slices j (push k x m) ≡ (if k == j then slices j m ++ x ∷ [] else slices j m)
  unfolding slices push
  slices-push k j x [] = ground arith
  slices-push k j x ((i, v) ∷ m) =
      ground (arith, eq_iff k j, eq_iff i k, eq_iff i j, slices-push k j x m)

  pub slices-each :
      (f : List A → List A) (k : String) (m : Dict (List A))
      → f [] ≡ []
      → slices k (each f m) ≡ f (slices k m)
  unfolding slices each
  slices-each f k [] e = ground (arith, e)
  slices-each f k ((j, v) ∷ m) e = ground (arith, slices-each f k m e)

  pub slices-lookup :
      (k : String) (m : Dict (List A)) {v : List A} → lookup k m ≡ some v → slices k m ≡ v
  unfolding slices lookup
  slices-lookup k [] {v} e = ground (arith, e)
  slices-lookup k ((j, w) ∷ m) {v} e = ground (arith, e, slices-lookup k m {v = v})
