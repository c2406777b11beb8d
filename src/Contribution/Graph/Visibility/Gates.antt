-- ===== src/Contribution/Graph/Visibility/Gates.antt =====
-- internal/contribution/model.go: the keys that stand for roots.
use Prim.Native.String.{slice, compare, ◌++◌}
use Prim.Native.String.append as append_laws
use Prim.Native.String.slice as slice_laws
use Prim.Native.String.compare as compare_laws
use text.Mathlib.Text.{starts_with, is_eq}
use text.Mathlib.TextLemmas.{append_cancel_left}
use hubnot.Prelude.{◌≡◌, true, false, String, arith, eq_iff, ◌==◌, ◌∙◌, ap, Bool-cases, inl, inr}
use hubnot.Contribution.Checks.{valid_id}
use hubnot.Contribution.Graph.Visibility.{gate_of}

pub gate_injective : (r s : String) → gate_of r ≡ gate_of s → r ≡ s
gate_injective r s e = append_cancel_left "root:" r s e

gate-slice : (r : String) → (rest : String) × (slice (gate_of r) 0 7 ≡ String.◌∷◌ "r" rest)
gate-slice r = (
  slice ("oot:" ++ r) 0 6,
  ap (λ t. slice t 0 7) (append_laws.cons "r" "oot:" r) ∙ slice_laws.cons-zero "r" ("oot:" ++ r) 7,
)

gate-starts : (r : String) → starts_with (gate_of r) "sha256:" ≡ false
gate-starts r =
    let (rest, e) = gate-slice r in
    ap (λ t. is_eq (compare t "sha256:")) e
    ∙ ap is_eq (compare_laws.cons-cons "r" "s" rest "ha256:")

-- No valid ID is such a key.
pub gate-apart : (r id : String) → valid_id id ≡ true → (gate_of r == id) ≡ false
unfolding valid_id
gate-apart r id v = elim (Bool-cases (gate_of r == id)) [
  | inl same ↦
      let e = gate-starts r in
      let e' = rw ((eq_iff (gate_of r) id).0 same) at e in absurd (ground (arith, e', v))
  | inr other ↦ other
]
