-- ===== src/Contribution/Graph/Visibility/Sights.antt =====
-- internal/contribution/model.go: what is visible before what is hidden spreads.
use hubnot.Prelude.{
  ◌≡◌, Bool, true, false, ◌||◌, String, List, [], ◌∷◌, ◌++◌, arith, ◌==◌, eq_iff, eq_refl,
  if◌then◌else◌, Bool-cases, inl, inr,
}
use hubnot.Prelude.Strings.{mem, mem-append}
use hubnot.Prelude.Maps.{Dict, lookup, insert, lookup-insert, slices, present}
use hubnot.Contribution.Graph.Visibility.{Sight, sees, sight_of_ids}
use hubnot.Contribution.Graph.Visibility.Spread.{sees-insert}

abbrev pub known : String → Sight → Bool
known k v = present (lookup k v.visible)

pub known-insert :
    (k j : String) (b : Bool) (v : Dict Bool)
    → present (lookup j (insert k b v)) ≡ (if k == j then true else present (lookup j v))
known-insert k j b v = ground (arith, lookup-insert k j b v)

-- The queue is what is known not to be visible.
pub record Queued (v : Sight) : Type 0 where
  pub falls : (k : String) → known k v ≡ true → sees k v.visible ≡ false → mem k v.queue ≡ true
  pub waits : (k : String) → mem k v.queue ≡ true → (sees k v.visible ≡ false) × (known k v ≡ true)

module _ (shown : String → Bool) (admitted : List String) where
  -- During the first loop: admitted IDs with their own visibility, and no links.
  pub record Listed (v : Sight) : Type 0 where
    pub queued : Queued v
    pub own :
        (k : String) → known k v ≡ true → (sees k v.visible ≡ shown k) × (mem k admitted ≡ true)
    pub links : (k : String) → slices k v.reverse ≡ []

  abbrev listing : String → Sight → Sight
  listing id v = record v {
    visible = insert id (shown id) v.visible;
    queue = if shown id then v.queue else v.queue ++ id ∷ [];
  }

  mem-listing :
      (id k : String) (v : Sight)
      → mem k (listing id v).queue
        ≡ (if shown id then mem k v.queue else (mem k v.queue || id == k))
  mem-listing id k v =
      unfold mem in ground (arith, mem-append k v.queue (id ∷ []), Bool-cases (id == k))

  step-Listed :
      (id : String) (v : Sight) → mem id admitted ≡ true → Listed v → Listed (listing id v)
  step-Listed id v m l = record {
    queued = record {
      falls = λ k e f. ground (
        arith,
        eq_iff id k,
        mem-listing id k v,
        known-insert id k (shown id) v.visible,
        sees-insert id k (shown id) v.visible,
        l.queued.falls k,
        e,
        f,
      );
      waits = λ k q. ground (
        arith,
        eq_iff id k,
        mem-listing id k v,
        known-insert id k (shown id) v.visible,
        sees-insert id k (shown id) v.visible,
        l.queued.waits k,
        l.own k,
        q,
      );
    };
    own = λ k e. ground (
      arith,
      eq_iff id k,
      known-insert id k (shown id) v.visible,
      sees-insert id k (shown id) v.visible,
      l.own k,
      e,
      m,
    );
    links = l.links;
  }

  pub record Lists (ids : List String) (before after : Sight) : Type 0 where
    pub listed : Listed after
    pub all : (k : String) → mem k ids ≡ true → known k after ≡ true
    pub more : (k : String) → known k before ≡ true → known k after ≡ true

  pub sight_of_ids-Lists :
      (ids : List String) (v : Sight)
      → ((k : String) → mem k ids ≡ true → mem k admitted ≡ true)
      → Listed v
      → Lists ids v (sight_of_ids shown ids v)
  unfolding sight_of_ids mem
  sight_of_ids-Lists [] v within l = record { listed = l; all = λ k m. absurd cc; more = λ k e. e }
  sight_of_ids-Lists (id ∷ ids) v within l =
      let rest =
        sight_of_ids-Lists ids (listing id v) (λ k m. within k (ground (arith, m)))
          (step-Listed id v (within id (ground (arith, eq_refl id))) l) in
      record {
        listed = rest.listed;
        all = λ k m. elim (Bool-cases (id == k)) [
          | inl same ↦ rest.more k (ground (arith, same, known-insert id k (shown id) v.visible))
          | inr other ↦ rest.all k (ground (arith, m))
        ];
        more = λ k e. rest.more k (ground (arith, e, known-insert id k (shown id) v.visible));
      }
