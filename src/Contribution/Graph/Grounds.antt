-- ===== src/Contribution/Graph/Grounds.antt =====
-- internal/contribution/model.go: what the table of native facts holds.
mod Runs
mod Loops
mod Examined
pub mod Found
use hubnot.Prelude.{
  ℕ, zero, suc, ◌+◌, ◌≤◌, ◌<◌, ◌≡◌, ◌≢◌, refl, ◌∙◌, Bool, true, false, not, ◌&&◌, String, List, [],
  ◌∷◌, ◌++◌, none, some, Result, ok, err, Error, out_of_fuel, arith, All, All-map, ltb, ◌==◌,
  if◌then◌else◌, is_empty, int_lt,
}
use hubnot.Prelude.Maps.{lookup}
use hubnot.Contribution.Checks.{valid_actor}
use hubnot.Contribution.Rules.{content_operation, author_operation}
use hubnot.Contribution.Records.{Reference, Content, validate_content}
use hubnot.Contribution.Graph.Facts.{
  NativeFact, FactTable, Sources, depth_of, same_family, is_reply, all_dependencies, deepest,
}

-- The fact of an ID, where the table has it.
abbrev pub Has : FactTable → String → NativeFact → Type 0
Has t id f = lookup id t.facts ≡ some f

-- A predecessor: a fact of the same root and author.
abbrev pub Precedes : FactTable → Content → String → Type 0
Precedes t c parent =
    (p : NativeFact) × Has t parent p
    × (p.content.root_id ≡ c.root_id)
    × (p.content.author ≡ c.author)

-- What a reference names: a fact, and a root where it says so.
abbrev pub Refers : FactTable → Reference → Type 0
Refers t r = (g : NativeFact) × Has t r.id g × (r.kind ≡ "root" → g.content.root_id ≡ r.id)

-- A dependency at a smaller depth.
abbrev pub Lower : FactTable → ℕ → String → Type 0
Lower t depth id = (g : NativeFact) × Has t id g × (depth_of id t < depth)

abbrev pub Edits : FactTable → NativeFact → Type 0
Edits t f =
    (root : NativeFact) × Has t f.content.root_id root
    × (root.content.root_id ≡ f.content.root_id)
    × (root.content.author ≡ f.content.author)
    × (is_empty f.content.parents ≡ false)
    × (same_family root.operation f.operation ≡ true)
    × (author_operation f.operation ≡ true)

abbrev pub Creates : NativeFact → Type 0
Creates f =
    (author_operation f.operation ≡ false)
    × (f.actor ≡ f.content.author)
    × (is_empty f.content.parents ≡ true)

-- A fact with the whole of its history in the table.
pub record Grounded (s : Sources) (t : FactTable) (id : String) (f : NativeFact) (depth : ℕ)
    : Type 0 where
  pub supplied : s.native id ≡ ok f
  pub named : f.content.revision ≡ id
  pub signed : valid_actor f.actor ≡ true
  pub operates : content_operation f.operation ≡ true
  pub content_valid : validate_content f.content ≡ ok tt
  pub creates : f.content.root_id ≡ id → Creates f
  pub edits : f.content.root_id ≢ id → Edits t f
  pub parents : All (Precedes t f.content) f.content.parents
  pub references : All (Refers t) f.content.references
  pub replies : is_reply f.operation ≡ true → is_empty f.content.references ≡ false
  pub lower : All (Lower t depth) (all_dependencies id f.content)
  pub bounded : int_lt s.limits.depth depth ≡ false

-- Every fact of the table is grounded in it, and no error is the model's own.
pub record Good (s : Sources) (t : FactTable) : Type 0 where
  pub grounded : (id : String) (f : NativeFact) → Has t id f → Grounded s t id f (depth_of id t)
  pub reasons : (id : String) (e : Error) → lookup id t.errors ≡ some e → e ≢ out_of_fuel

-- What is in the table stays, with its depth.
pub record Grows (t u : FactTable) : Type 0 where
  pub keeps : (id : String) (f : NativeFact) → Has t id f → Has u id f
  pub depths : (id : String) (f : NativeFact) → Has t id f → depth_of id u ≡ depth_of id t

pub Grows-refl : {t : FactTable} → Grows t t
Grows-refl = record { keeps = λ id f h. h; depths = λ id f h. refl }

pub Grows-trans : {t u v : FactTable} → Grows t u → Grows u v → Grows t v
Grows-trans g h = record {
  keeps = λ id f m. h.keeps id f (g.keeps id f m);
  depths = λ id f m. h.depths id f (g.keeps id f m) ∙ g.depths id f m;
}

module _ {t u : FactTable} (g : Grows t u) where
  pub Precedes-grows : (c : Content) (id : String) → Precedes t c id → Precedes u c id
  Precedes-grows c id (p, h, root, author) = (p, g.keeps id p h, root, author)

  pub Refers-grows : (r : Reference) → Refers t r → Refers u r
  Refers-grows r (p, h, root) = (p, g.keeps r.id p h, root)

  pub Lower-grows : (depth : ℕ) (id : String) → Lower t depth id → Lower u depth id
  Lower-grows depth id (p, h, lt) = (p, g.keeps id p h, omega (arith, g.depths id p h))

  pub Edits-grows : (f : NativeFact) → Edits t f → Edits u f
  Edits-grows f (root, h, r, a, p, e, o) = (root, g.keeps f.content.root_id root h, r, a, p, e, o)

  pub Grounded-grows :
      (s : Sources) (id : String) (f : NativeFact) (depth : ℕ)
      → Grounded s t id f depth
      → Grounded s u id f depth
  Grounded-grows s id f depth h = record {
    supplied = h.supplied;
    named = h.named;
    signed = h.signed;
    operates = h.operates;
    content_valid = h.content_valid;
    creates = h.creates;
    edits = λ n. Edits-grows f (h.edits n);
    parents =
        All-map (Precedes t f.content) (Precedes u f.content) (Precedes-grows f.content)
          f.content.parents h.parents;
    references = All-map (Refers t) (Refers u) Refers-grows f.content.references h.references;
    replies = h.replies;
    lower =
        All-map (Lower t depth) (Lower u depth) (Lower-grows depth) (all_dependencies id f.content)
          h.lower;
    bounded = h.bounded;
  }
