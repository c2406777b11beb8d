-- ===== src/Lineage/Root.antt =====
-- lineage.go: about `root`.
use hubnot.Prelude.{
  ℕ, zero, suc, ◌+◌, ◌<◌, ◌≡◌, ◌≢◌, refl, true, false, inl, inr, String, List, [], ◌∷◌, none, some,
  ok, err, out_of_fuel, arith, Bool-cases, Option-cases, >>=-eq-ok, length, ◌==◌, eq_iff,
}
use hubnot.Prelude.Strings.{mem, distinct, Within, length-le-of_distinct}
use hubnot.Prelude.Maps.{Dict, lookup, keys, present, present-lookup, length-keys}
use hubnot.Lineage.Index.{LineageIndex, chain_fuel}
use hubnot.Lineage.Query.{climb, root, require_proposal}
use hubnot.Lineage.Chain.{Ascends, here, up, Depth, top, below, Depth-unique}
use mathlib.Core.Path.{subst}

-- What `climb` returns is at the end of the chain.
pub climb_sound :
    (fuel : ℕ) (predecessors : Dict String) (visited : List String) (id : String) {r : String}
    → climb fuel predecessors visited id ≡ ok r
    → Ascends predecessors id r × (lookup r predecessors ≡ none)
unfolding climb
climb_sound zero predecessors visited id h = absurd (ground arith)
climb_sound (suc fuel) predecessors visited id {r} h = elim (Bool-cases (mem id visited)) [
  | inl seen ↦ absurd (ground arith)
  | inr fresh ↦ elim (Option-cases (lookup id predecessors)) [
    | inl e ↦
        let same : id ≡ r = ground arith in
        (subst (λ x. Ascends predecessors id x) same here, rw (← same) e)
    | inr (p, e) ↦
        let (chain, last) =
          climb_sound fuel predecessors (id ∷ visited) p {r = r} (rw (fresh, e, climb) at h) in
        (up p e chain, last)
  ]
]

-- An ID with a predecessor is a key, so it may join the distinct keys visited.
pub Within-cons :
    (predecessors : Dict String) (visited : List String) (id p : String)
    → lookup id predecessors ≡ some p
    → Within visited (keys predecessors)
    → Within (id ∷ visited) (keys predecessors)
unfolding mem
Within-cons predecessors visited id p e w a m =
    ground (arith, eq_iff id a, present-lookup id predecessors, w a)

-- The IDs visited are distinct keys of the map, so the fuel is enough on every map, also on one
-- with a cycle.
climb_returns :
    (fuel : ℕ) (predecessors : Dict String) (visited : List String) (id : String)
    → distinct visited ≡ true
    → Within visited (keys predecessors)
    → suc (length predecessors) < fuel + length visited
    → climb fuel predecessors visited id ≢ err out_of_fuel
unfolding climb
climb_returns zero predecessors visited id d w h =
    absurd (
      omega
        (arith, length-le-of_distinct visited (keys predecessors) d w, length-keys predecessors))
climb_returns (suc fuel) predecessors visited id d w h = elim (Bool-cases (mem id visited)) [
  | inl seen ↦ λ e. ground arith
  | inr fresh ↦ elim (Option-cases (lookup id predecessors)) [
    | inl e ↦ λ f. ground arith
    | inr (p, e) ↦
        rw (fresh, e, climb)
          (climb_returns fuel predecessors (id ∷ visited) p (unfold distinct in ground arith)
            (Within-cons predecessors visited id p e w) (omega arith))
  ]
]

-- Every ID visited is deeper than depth `n`.
abbrev pub Deeper : Dict String → ℕ → List String → Type 0
Deeper predecessors n visited =
    (v : String) → mem v visited ≡ true → (m : ℕ) × Depth predecessors v m × (n < m)

-- An ID visited on the way is not the one at hand.
pub not_visited :
    (predecessors : Dict String) (visited : List String) (id : String) (n : ℕ)
    → Depth predecessors id n
    → Deeper predecessors n visited
    → mem id visited ≡ false
not_visited predecessors visited id n d w = elim (Bool-cases (mem id visited)) [
  | inl seen ↦ let (m, e, lt) = w id seen in absurd (omega (arith, Depth-unique e d))
  | inr fresh ↦ fresh
]

pub Deeper-cons :
    (predecessors : Dict String) (visited : List String) (id p : String) (n : ℕ)
    → lookup id predecessors ≡ some p
    → Depth predecessors p n
    → Deeper predecessors (suc n) visited
    → Deeper predecessors n (id ∷ visited)
unfolding mem
Deeper-cons predecessors visited id p n e d w v m = elim (Bool-cases (id == v)) [
  | inl same ↦ (
    suc n,
    subst (λ x. Depth predecessors x (suc n)) ((eq_iff id v).0 same) (below p e d),
    omega arith,
  )
  | inr other ↦ let (k, dv, lt) = w v (ground (arith, m)) in (k, dv, omega arith)
]

-- Where the chain ends, `climb` does not meet an ID twice.
climb_meets_top :
    (fuel : ℕ) (predecessors : Dict String) (visited : List String) (id : String) {n : ℕ}
    → Depth predecessors id n
    → Deeper predecessors n visited
    → climb fuel predecessors visited id ≢ err out_of_fuel
    → (r : String) × (climb fuel predecessors visited id ≡ ok r)
unfolding climb
climb_meets_top zero predecessors visited id d w f = absurd (f refl)
climb_meets_top (suc fuel) predecessors visited id (top e) w f =
    let fresh = not_visited predecessors visited id zero (top e) w in (id, rw (fresh, e, climb))
climb_meets_top (suc fuel) predecessors visited id (below {n = k} p e d) w f =
    let fresh = not_visited predecessors visited id (suc k) (below p e d) w in
    let (r, found) =
      climb_meets_top fuel predecessors (id ∷ visited) p d
        (Deeper-cons predecessors visited id p k e d w) (rw (fresh, e, climb) at f) in
    (r, rw (fresh, e, climb) found)

climb_start :
    (predecessors : Dict String) (id : String)
    → climb (suc (chain_fuel predecessors)) predecessors [] id ≢ err out_of_fuel
unfolding mem distinct
climb_start predecessors id =
    climb_returns (suc (chain_fuel predecessors)) predecessors [] id refl (λ a m. absurd (cc))
      (omega arith)

module _ (index : LineageIndex) (id : String) where
  -- On every index, also one with a cycle, the loop of `root` ends: it returns an ID or reports an
  -- error of the source.
  pub root_terminates : root index id ≢ err out_of_fuel
  unfolding root require_proposal
  root_terminates = elim (Option-cases (lookup id index.proposals)) [
    | inl e ↦ rw e (λ h. ground arith)
    | inr (s, e) ↦ rw e (climb_start index.predecessors id)
  ]

  -- What `root` returns has no predecessor and is reached from the proposal by predecessors.
  pub root_sound :
      {r : String}
      → root index id ≡ ok r
      → Ascends index.predecessors id r × (lookup r index.predecessors ≡ none)
  unfolding root require_proposal
  root_sound {r} h =
      climb_sound (suc (chain_fuel index.predecessors)) index.predecessors [] id {r = r}
        (>>=-eq-ok (require_proposal index id)
          (λ _. climb (suc (chain_fuel index.predecessors)) index.predecessors [] id) h).2

  -- A proposal whose chain ends has a root.
  pub root_exists :
      {n : ℕ}
      → present (lookup id index.proposals) ≡ true
      → Depth index.predecessors id n
      → (r : String) × (root index id ≡ ok r)
  unfolding root require_proposal
  root_exists p d =
      let (r, found) =
        climb_meets_top (suc (chain_fuel index.predecessors)) index.predecessors [] id d
          (λ v m. absurd (unfold mem in cc)) (climb_start index.predecessors id) in
      (r, rw p found)
