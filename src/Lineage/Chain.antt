-- ===== src/Lineage/Chain.antt =====
-- lineage.go: the chain of predecessors that leads from a proposal to the root of its lineage.
use hubnot.Prelude.{ℕ, zero, suc, ◌≡◌, refl, sym, ◌∙◌, ap, String, none, some}
use mathlib.Core.Path.{subst}
use mathlib.Core.Option.{some-injective}
use hubnot.Prelude.Maps.{Dict, lookup}

module _ (predecessors : Dict String) where
  -- `Ascends a b`: `b` is reached from `a` by zero or more predecessors.
  pub data Ascends : String → String → Type 0 where
    here : {a : String} → Ascends a a
    up : {a b : String} (p : String) → lookup a predecessors ≡ some p → Ascends p b → Ascends a b

  -- `Depth a n`: a proposal without predecessor is `n` predecessors above `a`.
  pub data Depth : String → ℕ → Type 0 where
    top : {a : String} → lookup a predecessors ≡ none → Depth a zero
    below :
        {a : String} {n : ℕ} (p : String)
        → lookup a predecessors ≡ some p
        → Depth p n
        → Depth a (suc n)

  -- `x` is the predecessor of `a`, or one of its predecessors.
  abbrev pub Above : String → String → Type 0
  Above a x = (p : String) × (lookup a predecessors ≡ some p) × Ascends p x

  -- `x` revises `a`, or a proposal that is below `a`.
  abbrev pub Below : String → String → Type 0
  Below a x = (p : String) × (lookup x predecessors ≡ some p) × Ascends p a

module _ {predecessors : Dict String} where
  pub Depth-unique :
      {a : String} {m n : ℕ} → Depth predecessors a m → Depth predecessors a n → m ≡ n
  Depth-unique (top e) (top f) = refl
  Depth-unique (top e) (below q f d) = cc
  Depth-unique (below p e c) (top f) = cc
  Depth-unique (below p e c) (below {n = k} q f d) =
      let same : q ≡ p = some-injective q p (sym f ∙ e) in
      ap suc (Depth-unique c (subst (λ x. Depth predecessors x k) same d))

  pub Ascends-trans :
      {a b c : String}
      → Ascends predecessors a b
      → Ascends predecessors b c
      → Ascends predecessors a c
  Ascends-trans here r = r
  Ascends-trans (up p e l) r = up p e (Ascends-trans l r)

  -- A root is reached from each proposal by one chain.
  pub Ascends-unique :
      {a b c : String}
      → Ascends predecessors a b
      → Ascends predecessors a c
      → lookup b predecessors ≡ none
      → lookup c predecessors ≡ none
      → b ≡ c
  Ascends-unique here here f g = refl
  Ascends-unique here (up q e r) f g = cc
  Ascends-unique (up p e l) here f g = cc
  Ascends-unique (up p e l) (up {b = z} q d r) f g =
      let same : q ≡ p = some-injective q p (sym d ∙ e) in
      Ascends-unique l (subst (λ x. Ascends predecessors x z) same r) f g
