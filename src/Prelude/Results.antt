-- ===== src/Prelude/Results.antt =====
-- Go's `(value, error)` results. An error keeps its format string and the arguments of the call of
-- `fmt.Errorf`; `%w` wraps an error.
use Prim.Native.Nat.{ℕ}
use Prim.Native.String.{String}
use mathlib.Core.Path.{◌≡◌, refl}
use mathlib.Core.Logic.{◌⊎◌, inl, inr}
use mathlib.Core.Bool.{Bool, true, false}
use mathlib.Core.List.{List}

pub data Argument : Type 0 where
  str : String → Argument
  num : ℕ → Argument

-- `out_of_fuel` is the model's own: a loop that did not end within its fuel.
pub data Error : Type 0 where
  errorf : String → List Argument → Error
  wrapf : String → List Argument → Error → Error
  out_of_fuel : Error

pub data Result {ℓ} (A : Type ℓ) : Type ℓ where
  ok : A → Result A
  err : Error → Result A

-- `value, err := run; if err != nil { return err }`, and the same without a value.
infixl 5 ◌>>=◌ ◌>>◌
abbrev pub ◌>>=◌ {ℓ κ} :
    {First : Type ℓ} {Last : Type κ} → Result First → (First → Result Last) → Result Last
err failure >>= rest = err failure
ok value >>= rest = rest value

abbrev pub ◌>>◌ {ℓ} : {Last : Type ℓ} → Result (Unit {0}) → Result Last → Result Last
check >> rest = check >>= λ done. rest

-- `if failed { return fmt.Errorf(...) }`.
abbrev pub refuse : Bool → Error → Result (Unit {0})
refuse true e = err e
refuse false e = ok tt

-- `if err := r; err != nil { return fmt.Errorf("...: %w", ..., err) }`.
abbrev pub context {ℓ} : {A : Type ℓ} → String → List Argument → Result A → Result A
context format arguments (ok a) = ok a
context format arguments (err e) = err (wrapf format arguments e)

-- To split on a run and keep what it returned.
pub Result-cases {ℓ} :
    {Value : Type ℓ} (run : Result Value)
    → ((value : Value) × (run ≡ ok value)) ⊎ ((failure : Error) × (run ≡ err failure))
Result-cases (err failure) = inr (failure, refl)
Result-cases (ok value) = inl (value, refl)

-- Inversion of a successful chain: what came first succeeded, and so did the rest.
pub >>=-eq-ok {ℓ κ} :
    {First : Type ℓ} {Last : Type κ} (run : Result First) (rest : First → Result Last) {out : Last}
    → (run >>= rest) ≡ ok out
    → (value : First) × (run ≡ ok value) × (rest value ≡ ok out)
>>=-eq-ok (err failure) rest chain = cc
>>=-eq-ok (ok value) rest chain = (value, refl, chain)

-- A function that returns only an `error`.
abbrev pub Checked : Type 0
Checked = Result (Unit {0})

pub ok-injective {ℓ} : {A : Type ℓ} {x y : A} → ok x ≡ ok y → x ≡ y
ok-injective e = cc
