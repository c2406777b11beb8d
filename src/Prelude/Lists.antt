-- ===== src/Prelude/Lists.antt =====
-- Lists measured by native numbers, and predicates over lists.
use Prim.Native.Nat.{ℕ, suc, ◌+◌, ◌≤◌}
use mathlib.Core.Path.{◌≡◌, refl, ap}
use mathlib.Core.Bool.{Bool, true, false}
use mathlib.Core.List.{List, [], ◌∷◌, ◌++◌, map, Mem, mem-cons_self, mem-cons_of_mem}
use native.Mathlib.Omega.{arith}
use hubnot.Prelude.Tests.{if◌then◌else◌}

module _ {ℓ} {A : Type ℓ} where
  abbrev pub length : List A → ℕ
  length [] = 0
  length (x ∷ xs) = suc (length xs)

  -- Go's `for _, x := range xs { if keep(x) { ... append } }`.
  unfoldable pub select : (A → Bool) → List A → List A
  select keep [] = []
  select keep (x ∷ xs) = if keep x then x ∷ select keep xs else select keep xs

  -- Go's search loop that returns true at the first hit.
  unfoldable pub has : (A → Bool) → List A → Bool
  has test [] = false
  has test (x ∷ xs) = if test x then true else has test xs

  abbrev pub All {κ} : (A → Type κ) → List A → Type κ
  All P [] = Unit
  All P (x ∷ xs) = P x × All P xs

  abbrev pub is_empty : List A → Bool
  is_empty [] = true
  is_empty (x ∷ xs) = false

module _ {ℓ} {A : Type ℓ} where
  pub length-append : (xs ys : List A) → length (xs ++ ys) ≡ length xs + length ys
  length-append [] ys = omega arith
  length-append (x ∷ xs) ys = omega (arith, length-append xs ys)

  pub length-select-le : (keep : A → Bool) (xs : List A) → length (select keep xs) ≤ length xs
  unfolding select
  length-select-le keep [] = omega arith
  length-select-le keep (x ∷ xs) = ground (arith, length-select-le keep xs)

  pub All-select {κ} :
      (P : A → Type κ) (keep : A → Bool) (xs : List A) → All P xs → All P (select keep xs)
  unfolding select
  All-select P keep [] h = h
  All-select P keep (x ∷ xs) h = go (keep x) (All-select P keep xs h.1)
    where
      go :
          (b : Bool)
          → All P (select keep xs)
          → All P (if b then x ∷ select keep xs else select keep xs)
      go true r = (h.0, r)
      go false r = r

  pub All-select_test : (keep : A → Bool) (xs : List A) → All (λ x. keep x ≡ true) (select keep xs)
  unfolding select
  All-select_test keep [] = tt
  All-select_test keep (x ∷ xs) = go (keep x) refl (All-select_test keep xs)
    where
      go :
          (b : Bool)
          → keep x ≡ b
          → All (λ y. keep y ≡ true) (select keep xs)
          → All (λ y. keep y ≡ true) (if b then x ∷ select keep xs else select keep xs)
      go true e r = (e, r)
      go false e r = r

pub length-map {ℓ κ} :
    {A : Type ℓ} {B : Type κ} (f : A → B) (xs : List A) → length (map f xs) ≡ length xs
length-map f [] = refl
length-map f (x ∷ xs) = ap suc (length-map f xs)

pub All-map {ℓ κ μ} :
    {A : Type ℓ} (P : A → Type κ) (Q : A → Type μ)
    → ((x : A) → P x → Q x)
    → (xs : List A) → All P xs
    → All Q xs
All-map P Q f [] h = tt
All-map P Q f (x ∷ xs) h = (f x h.0, All-map P Q f xs h.1)

-- Each value of a list is in it.
pub All-Mem {ℓ} : {A : Type ℓ} (xs : List A) → All (λ x. Mem x xs) xs
All-Mem [] = tt
All-Mem (x ∷ xs) = (
  mem-cons_self,
  All-map (λ y. Mem y xs) (λ y. Mem y (x ∷ xs)) (λ y m. mem-cons_of_mem x m) xs (All-Mem xs),
)

-- What holds of the values that are kept holds of those that pass the test.
pub select-All {ℓ κ} :
    {A : Type ℓ} (P : A → Type κ) (keep : A → Bool) (xs : List A)
    → All P (select keep xs)
    → All (λ x. keep x ≡ true → P x) xs
unfolding select
select-All P keep [] h = tt
select-All P keep (x ∷ xs) h = go (λ k. select-All P keep xs k) (keep x) refl h
  where
    go :
        (All P (select keep xs) → All (λ y. keep y ≡ true → P y) xs)
        → (b : Bool) → keep x ≡ b
        → All P (if b then x ∷ select keep xs else select keep xs)
        → (keep x ≡ true → P x) × All (λ y. keep y ≡ true → P y) xs
    go later true e r = (λ t. r.0, later r.1)
    go later false e r = (λ t. absurd ground (arith, e, t), later r)

pub All-zip {ℓ κ μ} :
    {A : Type ℓ} (P : A → Type κ) (Q : A → Type μ) (xs : List A)
    → All P xs
    → All Q xs
    → All (λ x. P x × Q x) xs
All-zip P Q [] h k = tt
All-zip P Q (x ∷ xs) h k = ((h.0, k.0), All-zip P Q xs h.1 k.1)

pub All-append {ℓ κ} :
    {A : Type ℓ} (P : A → Type κ) (xs ys : List A) → All P xs → All P ys → All P (xs ++ ys)
All-append P [] ys h k = k
All-append P (x ∷ xs) ys h k = (h.0, All-append P xs ys h.1 k)

pub All-split {ℓ κ} :
    {A : Type ℓ} (P : A → Type κ) (xs ys : List A) → All P (xs ++ ys) → All P xs × All P ys
All-split P [] ys h = (tt, h)
All-split P (x ∷ xs) ys h = let (k, l) = All-split P xs ys h.1 in ((h.0, k), l)
