-- ===== src/Event/Ids.antt =====
-- event.go: the shapes of event IDs and Git object IDs.
use Prim.Native.Char.{code}
use Prim.Native.String.{len, slice}
use text.Mathlib.Text.{starts_with}
use hubnot.Prelude.{
  ℕ, suc, String, Bool, true, false, ◌&&◌, ◌||◌, List, [], ◌∷◌, Option, none, some, leb, ltb, eqb,
  not, if◌then◌else◌,
}
use hubnot.Prelude.Strings.{mem}

-- `strings.TrimPrefix`.
unfoldable pub trim_prefix : String → String → String
trim_prefix s prefix = if starts_with s prefix then slice s (len prefix) (len s) else s

is_hex_digit : ℕ → Bool
is_hex_digit c =
    (leb b'0' c && leb c b'9') || (leb b'a' c && leb c b'f') || (leb b'A' c && leb c b'F')

-- `hex.DecodeString`: the number of bytes decoded, or no value on an error. Two digits are one byte.
unfoldable pub hex_decoded : String → Option ℕ
unfolding is_hex_digit
hex_decoded String.[] = some 0
hex_decoded (String.◌∷◌ c String.[]) = none
hex_decoded (String.◌∷◌ c (String.◌∷◌ d s)) =
    let rest = hex_decoded s in
    if is_hex_digit (code c) && is_hex_digit (code d)
    then elim rest [ none ↦ none | some n ↦ some (suc n) ]
    else none

abbrev pub decoded_length_is : Option ℕ → ℕ → Bool
decoded_length_is none n = false
decoded_length_is (some m) n = eqb m n

unfoldable pub valid_event_id : String → Bool
unfolding trim_prefix hex_decoded
valid_event_id id =
    if not (starts_with id "sha256:")
    then false
    else decoded_length_is (hex_decoded (trim_prefix id "sha256:")) 32

unfoldable pub valid_git_oid : String → Bool
unfolding hex_decoded
valid_git_oid id = decoded_length_is (hex_decoded id) 20 || decoded_length_is (hex_decoded id) 32

unfoldable pub short_id : String → String
unfolding trim_prefix
short_id id =
    let trimmed = trim_prefix id "sha256:" in
    if ltb 12 (len trimmed) then slice trimmed 0 12 else trimmed

-- The loop of `validEvidenceIDs`, with the set of IDs seen.
unfoldable pub valid_evidence_from : List String → List String → Bool
valid_evidence_from seen [] = true
valid_evidence_from seen (id ∷ ids) =
    if not (valid_event_id id) || mem id seen then false else valid_evidence_from (id ∷ seen) ids

unfoldable pub valid_evidence_ids : List String → Bool
unfolding valid_evidence_from
valid_evidence_ids evidence = valid_evidence_from [] evidence
