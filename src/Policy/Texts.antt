-- ===== src/Policy/Texts.antt =====
-- The shapes of the texts in a policy: actors (runner.go, identity_keyring.go), identifiers
-- (issue_model.go), pipeline names (ci.go), and the paths and branches of protected_checks.go.
use Prim.Native.Char.{Char, code}
use Prim.Native.String.{len, slice, find, ◌++◌}
use text.Mathlib.Text.{starts_with}
use hubnot.Prelude.{
  ℕ, String, Bool, true, false, not, ◌&&◌, ◌||◌, List, [], ◌∷◌, ◌==◌, ltb, leb, eqb, if◌then◌else◌,
  has, ◌-◌,
}
use hubnot.Event.Ids.{hex_decoded, decoded_length_is}

-- `strings.ContainsFunc`, and the negation of "every character of".
unfoldable pub contains_func : (ℕ → Bool) → String → Bool
contains_func f String.[] = false
contains_func f (String.◌∷◌ c s) = if f (code c) then true else contains_func f s

-- `unicode.IsControl`
abbrev pub is_control : ℕ → Bool
is_control c = ltb c 32 || (leb 127 c && ltb c 160)

-- `unicode.IsSpace`
abbrev pub is_space : ℕ → Bool
is_space c =
    (leb 9 c && leb c 13)
    || eqb c 32
    || eqb c 133
    || eqb c 160
    || eqb c 5760
    || (leb 8192 c && leb c 8202)
    || eqb c 8232
    || eqb c 8233
    || eqb c 8239
    || eqb c 8287
    || eqb c 12288

-- `strings.HasSuffix`
unfoldable pub ends_with : String → String → Bool
ends_with s t = leb (len t) (len s) && slice s (len s - len t) (len s) == t

-- `strings.TrimSuffix`
unfoldable pub trim_suffix : String → String → String
unfolding ends_with
trim_suffix s t = if ends_with s t then slice s 0 (len s - len t) else s

-- `strings.Contains`
unfoldable pub contains : String → String → Bool
contains s t = leb (find s t) (len s)

-- One more character in front of the components that follow.
abbrev split_step : Char → List String → List String
split_step c [] = []
split_step c (x ∷ xs) = if eqb (code c) b'/' then "" ∷ x ∷ xs else String.◌∷◌ c x ∷ xs

-- `strings.Split(s, "/")`
unfoldable pub split_path : String → List String
split_path String.[] = "" ∷ []
split_path (String.◌∷◌ c s) = split_step c (split_path s)

-- `strings.EqualFold(s, ".git")`
unfoldable pub is_git_folder : String → Bool
is_git_folder s =
    s == ".git"
    || s == ".giT"
    || s == ".gIt"
    || s == ".gIT"
    || s == ".Git"
    || s == ".GiT"
    || s == ".GIt"
    || s == ".GIT"

-- `path.Clean(s) == s` for a relative path: no empty and no `.` component, and `..` only in front.
unfoldable pub clean_components : Bool → List String → Bool
clean_components front [] = true
clean_components front (x ∷ xs) =
    if x == "" || x == "."
    then false
    else if x == ".."
    then front && clean_components true xs
    else clean_components false xs

unfoldable pub is_clean : String → Bool
unfolding clean_components split_path
is_clean s = s == "." || clean_components true (split_path s)

-- `validActorID`
unfoldable pub valid_actor_id : String → Bool
unfolding hex_decoded
valid_actor_id actor = decoded_length_is (hex_decoded actor) 32

-- `validActorFingerprint`: a lower-case hexadecimal text is its own lower case, and no other text of
-- the loop's characters is.
unfoldable pub valid_actor_fingerprint : String → Bool
unfolding contains_func
valid_actor_fingerprint actor =
    if not (eqb (len actor) 64)
    then false
    else not (contains_func (λ c. (ltb c b'0' || ltb b'9' c) && (ltb c b'a' || ltb b'f' c)) actor)

-- `issueText`; a text of the model is valid UTF-8.
unfoldable pub issue_text : String → ℕ → Bool → Bool
unfolding contains_func
issue_text value limit required =
    leb (len value) limit && (not required || contains_func (λ c. not (is_space c)) value)

-- `issueIdentifier`
unfoldable pub issue_identifier : String → ℕ → Bool
unfolding issue_text contains_func
issue_identifier value limit = issue_text value limit true && not (contains_func is_control value)

abbrev pub is_name_character : ℕ → Bool
is_name_character c =
    (leb b'a' c && leb c b'z')
    || (leb b'A' c && leb c b'Z')
    || (leb b'0' c && leb c b'9')
    || eqb c b'-'
    || eqb c b'_'
    || eqb c b'.'

-- `validPipelineName`
unfoldable pub valid_pipeline_name : String → Bool
unfolding contains_func
valid_pipeline_name name =
    if name == "" || ltb 64 (len name) || name == "." || name == ".."
    then false
    else not (contains_func (λ c. not (is_name_character c)) name)

abbrev is_ref_reserved : ℕ → Bool
is_ref_reserved c =
    eqb c 32
    || eqb c b'~'
    || eqb c b'^'
    || eqb c b':'
    || eqb c b'?'
    || eqb c b'*'
    || eqb c b'['
    || eqb c 92

-- `validPolicyBranch`
unfoldable pub valid_policy_branch : String → Bool
unfolding ends_with contains contains_func split_path
valid_policy_branch branch =
    if branch == ""
      || ltb 255 (len branch)
      || starts_with branch "-"
      || starts_with branch "/"
      || ends_with branch "/"
      || ends_with branch "."
      || contains_func is_ref_reserved branch
      || contains branch ".."
      || contains branch "@{"
      || contains branch "//"
      || contains_func is_control branch
    then false
    else if has (λ part. starts_with part "." || ends_with part ".lock") (split_path branch)
    then false
    else not (branch == "@")

-- One path of the loop of `validatePolicyPaths`, past its test for duplicates.
unfoldable pub valid_literal_path : String → Bool
unfolding trim_suffix is_clean contains_func contains split_path is_git_folder
valid_literal_path p =
    let q = trim_suffix p "/" in
    not (
      p == ""
      || ltb 4096 (len p)
      || q == ""
      || q == "."
      || starts_with q "/"
      || not (is_clean q)
      || contains_func (λ c. eqb c 92 || eqb c b'*' || eqb c b'?' || eqb c b'[' || eqb c b']') p
      || contains q ":"
      || contains_func is_control p)
    && not (has (λ component. component == ".." || is_git_folder component) (split_path q))

-- `s + t`
abbrev pub concat : String → String → String
concat s t = s ++ t

-- `".hn/pipelines/" + name + ".json"`
unfoldable pub pipeline_path : String → String
pipeline_path name = concat ".hn/pipelines/" (concat name ".json")
