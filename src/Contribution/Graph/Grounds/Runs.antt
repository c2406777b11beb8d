-- ===== src/Contribution/Graph/Grounds/Runs.antt =====
-- internal/contribution/model.go: how a look-up of native facts changes the table.
use hubnot.Prelude.{
  ◌≡◌, ◌≢◌, refl, ◌∙◌, Bool, true, false, String, none, Result, ok, err, out_of_fuel, arith,
}
use hubnot.Prelude.Strings.{mem}
use hubnot.Prelude.Maps.{lookup}
use hubnot.Contribution.Graph.Facts.{FactTable, Sources, Lookup, resume, ◌>>◌, return, require}
use hubnot.Contribution.Graph.Grounds.{Good, Grows, Grows-refl, Grows-trans}

-- The table grew, the calls under way are the same, and what they look for is not found yet.
pub record Extends (t u : FactTable) : Type 0 where
  pub grows : Grows t u
  pub calls : u.visiting ≡ t.visiting
  pub open_ids :
      (id : String) → mem id t.visiting ≡ true → lookup id t.facts ≡ none → lookup id u.facts ≡ none

pub Extends-refl : {t : FactTable} → Extends t t
Extends-refl = record { grows = Grows-refl; calls = refl; open_ids = λ id m e. e }

pub Extends-trans : {t u v : FactTable} → Extends t u → Extends u v → Extends t v
Extends-trans x y = record {
  grows = Grows-trans x.grows y.grows;
  calls = y.calls ∙ x.calls;
  open_ids = λ id m e. y.open_ids id (rw x.calls m) (x.open_ids id m e);
}

module _ (s : Sources) where
  -- A run from a table: it extends the table, and where it succeeds it establishes `Post`.
  abbrev pub Leaves {ℓ} :
      {A : Type ℓ} → FactTable → (A → FactTable → Type 0) → Result A × FactTable → Type 0
  Leaves t Post (ok a, u) = Extends t u × Good s u × Post a u
  Leaves t Post (err e, u) = Extends t u × Good s u × (e ≢ out_of_fuel)

  Leaves-trans {ℓ} :
      {A : Type ℓ} (t u : FactTable) (Q : A → FactTable → Type 0) (run : Result A × FactTable)
      → Extends t u
      → Leaves u Q run
      → Leaves t Q run
  Leaves-trans t u Q (ok b, v) x (y, h, q) = (Extends-trans x y, h, q)
  Leaves-trans t u Q (err e, v) x (y, h, n) = (Extends-trans x y, h, n)

  pub resume-Leaves {ℓ κ} :
      {A : Type ℓ} {B : Type κ} (t : FactTable) (P : A → FactTable → Type 0)
      (Q : B → FactTable → Type 0) (run : Result A × FactTable) (rest : A → Lookup B)
      → Leaves t P run
      → ((a : A) (u : FactTable) → Extends t u → Good s u → P a u → Leaves u Q (rest a u))
      → Leaves t Q (resume run rest)
  resume-Leaves t P Q (ok a, u) rest (x, g, p) next =
      Leaves-trans t u Q (rest a u) x (next a u x g p)
  resume-Leaves t P Q (err e, u) rest l next = l

  -- To change what is established.
  pub Leaves-map {ℓ} :
      {A : Type ℓ} (t : FactTable) (P Q : A → FactTable → Type 0) (run : Result A × FactTable)
      → Leaves t P run
      → ((a : A) (u : FactTable) → Extends t u → P a u → Q a u)
      → Leaves t Q run
  Leaves-map t P Q (ok a, u) (x, g, p) f = (x, g, f a u x p)
  Leaves-map t P Q (err e, u) l f = l

  pub return-Leaves :
      {A : Type 0} (t : FactTable) (r : Result A)
      → Good s t
      → r ≢ err out_of_fuel
      → Leaves t (λ a u. r ≡ ok a) (return r t)
  return-Leaves t (ok a) g n = (Extends-refl, g, refl)
  return-Leaves t (err e) g n = (Extends-refl, g, λ x. n (ground (arith, x)))

  pub require-Leaves {ℓ} :
      {B : Type ℓ} (t : FactTable) (Q : B → FactTable → Type 0) (b : Bool) (format : String)
      (rest : Lookup B)
      → Good s t
      → (b ≡ true → Leaves t Q (rest t))
      → Leaves t Q ((require b format >> rest) t)
  require-Leaves t Q true format rest g next = next refl
  require-Leaves t Q false format rest g next = (Extends-refl, g, λ x. ground (arith, x))

  pub require-Leaves_last :
      (t : FactTable) (Q : Unit {0} → FactTable → Type 0) (b : Bool) (format : String)
      → Good s t
      → (b ≡ true → Q tt t)
      → Leaves t Q (require b format t)
  require-Leaves_last t Q true format g next = (Extends-refl, g, next refl)
  require-Leaves_last t Q false format g next = (Extends-refl, g, λ x. ground (arith, x))
