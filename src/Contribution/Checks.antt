-- ===== src/Contribution/Checks.antt =====
-- internal/contribution/record.go: the shapes of identifiers and bounded texts.
use Prim.Native.Char.{code}
use Prim.Native.String.{len, slice}
use text.Mathlib.Text.{starts_with}
use hubnot.Prelude.{
  ℕ, String, Bool, true, false, not, ◌&&◌, ◌||◌, List, [], ◌∷◌, ◌==◌, ltb, leb, eqb, if◌then◌else◌,
  length, Error, errorf,
}
use hubnot.Prelude.Strings.{str_ltb}

abbrev pub max_links : ℕ
max_links = 64

abbrev pub max_graph_records : ℕ
max_graph_records = 16384

abbrev pub err_authority : Error
err_authority = errorf "invalid, stale or unestablished authority" []

all_lower_hex : String → Bool
all_lower_hex String.[] = true
all_lower_hex (String.◌∷◌ c s) =
    let r = code c in
    if not ((leb b'0' r && leb r b'9') || (leb b'a' r && leb r b'f'))
    then false
    else all_lower_hex s

unfoldable pub valid_hex : String → ℕ → Bool
unfolding all_lower_hex
valid_hex s n = if not (eqb (len s) n) then false else all_lower_hex s

unfoldable pub valid_id : String → Bool
unfolding valid_hex
valid_id s = starts_with s "sha256:" && valid_hex (slice s 7 (len s)) 64

unfoldable pub valid_actor : String → Bool
unfolding valid_hex
valid_actor s = valid_hex s 64

unfoldable pub valid_oid : String → Bool
unfolding valid_hex
valid_oid s = valid_hex s 40 || valid_hex s 64

all_printable : String → Bool
all_printable String.[] = true
all_printable (String.◌∷◌ c s) =
    let r = code c in if ltb r 32 || eqb r 127 then false else all_printable s

-- A text of the model is valid UTF-8.
unfoldable pub bounded_text : String → ℕ → Bool
unfolding all_printable
bounded_text s n = if s == "" || ltb n (len s) then false else all_printable s

-- The loop of `validIDs` and `validActors`: valid, and in ascending order.
unfoldable pub ascending : (String → Bool) → List String → Bool
ascending valid [] = true
ascending valid (x ∷ []) = valid x
ascending valid (x ∷ y ∷ xs) =
    if not (valid x) then false else if not (str_ltb x y) then false else ascending valid (y ∷ xs)

unfoldable pub valid_ids : List String → ℕ → Bool
unfolding ascending valid_id
valid_ids ids max = if ltb max (length ids) then false else ascending valid_id ids

unfoldable pub valid_actors : List String → ℕ → Bool
unfolding ascending valid_actor
valid_actors ids max = if ltb max (length ids) then false else ascending valid_actor ids
