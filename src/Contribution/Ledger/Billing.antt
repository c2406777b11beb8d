-- ===== src/Contribution/Ledger/Billing.antt =====
-- internal/contribution/policy.go: what a reservation adds to the counters, in exact numbers.
use hubnot.Prelude.{◌≡◌, refl, sym, ap, ◌∙◌, ◌-◌, true, ok, arith, ℕ, ◌+◌, ◌≤◌, ℤ, pos, negsuc}
use hubnot.Prelude.Int64.{
  max_int64, is_positive, is_nonnegative, le64, add64, sub64, add64_exact, sub64_exact,
}
use hubnot.Contribution.Quota.{
  Cost, Usage, Limits, usage_nonnegative, usage_within, validate_cost, cost_within, add_usage,
  charge,
}

-- A value of Go's `int64` is at most its maximum.
abbrev pub Fits64 : ℤ → Type 0
Fits64 x = le64 x (pos max_int64) ≡ true

-- The fields of a cost that are charged are values of `int64`.
pub record InRange (c : Cost) : Type 0 where
  pub wire : Fits64 c.wire_bytes
  pub decoded : Fits64 c.decoded_bytes
  pub objects : Fits64 c.objects
  pub events : Fits64 c.events

-- A counter grows by `n`, without a wrap, and stays within its budget.
pub record Adds (n : ℕ) (before after max : ℤ) : Type 0 where
  pub held : ℕ
  pub budget : ℕ
  pub was : before ≡ pos held
  pub becomes : after ≡ pos (held + n)
  pub budgeted : max ≡ pos budget
  pub fits : held + n ≤ budget

-- The counters of a usage grow by the cost, with 4096 bytes and one request for the reservation.
pub record Billed (c : Cost) (before after max : Usage) : Type 0 where
  pub wire : ℕ
  pub decoded : ℕ
  pub objects : ℕ
  pub events : ℕ
  pub wire_is : c.wire_bytes ≡ pos wire
  pub decoded_is : c.decoded_bytes ≡ pos decoded
  pub objects_is : c.objects ≡ pos objects
  pub events_is : c.events ≡ pos events
  pub bytes_add : Adds (wire + decoded + 4096) before.bytes after.bytes max.bytes
  pub objects_add : Adds objects before.objects after.objects max.objects
  pub events_add : Adds events before.events after.events max.events
  pub requests_add : Adds 1 before.requests after.requests max.requests

-- The cost is one of counts, of which the bytes leave room in the range for the reservation.
record Counts (c : Cost) : Type 0 where
  pub wire : ℕ
  pub decoded : ℕ
  pub objects : ℕ
  pub events : ℕ
  pub wire_is : c.wire_bytes ≡ pos wire
  pub decoded_is : c.decoded_bytes ≡ pos decoded
  pub objects_is : c.objects ≡ pos objects
  pub events_is : c.events ≡ pos events
  pub room : wire + decoded + 4096 ≤ max_int64
  pub objects_fit : objects ≤ max_int64
  pub events_fit : events ≤ max_int64

positive-count : (x : ℤ) → is_positive x ≡ true → (n : ℕ) × (x ≡ pos n)
positive-count (pos n) h = (n, refl)
positive-count (negsuc n) h = absurd ground (arith, h)

room-of :
    (w d : ℕ)
    → d ≤ max_int64
    → le64 (pos w) (sub64 (sub64 (pos max_int64) (pos d)) (pos 4096)) ≡ true
    → w + d + 4096 ≤ max_int64
room-of w d small h =
    let inner = ap (λ x. le64 (pos w) (sub64 x (pos 4096))) (sub64_exact d small) in
    let exact : le64 (pos w) (sub64 (pos (max_int64 - d)) (pos 4096)) ≡ true = sym inner ∙ h in
    unfold sub64 in ground (arith, exact)

moved :
    {w d : ℤ} {m n : ℕ}
    → w ≡ pos m
    → d ≡ pos n
    → le64 w (sub64 (sub64 (pos max_int64) d) (pos 4096))
      ≡ le64 (pos m) (sub64 (sub64 (pos max_int64) (pos n)) (pos 4096))
moved {d = d} {m} p q =
    ap (λ x. le64 x (sub64 (sub64 (pos max_int64) d) (pos 4096))) p
    ∙ ap (λ x. le64 (pos m) (sub64 (sub64 (pos max_int64) x) (pos 4096))) q

Counts-of : (c : Cost) (l : Limits) → InRange c → cost_within c l ≡ true → Counts c
unfolding cost_within validate_cost
Counts-of c l range h =
    let (wire, wire_is) = positive-count c.wire_bytes (ground (arith, h)) in
    let (decoded, decoded_is) = positive-count c.decoded_bytes (ground (arith, h)) in
    let (objects, objects_is) = positive-count c.objects (ground (arith, h)) in
    let (events, events_is) = positive-count c.events (ground (arith, h)) in
    let left : le64 c.wire_bytes (sub64 (sub64 (pos max_int64) c.decoded_bytes) (pos 4096)) ≡ true =
      ground (arith, h) in
    record {
      wire = wire;
      decoded = decoded;
      objects = objects;
      events = events;
      wire_is = wire_is;
      decoded_is = decoded_is;
      objects_is = objects_is;
      events_is = events_is;
      room =
          room-of wire decoded (ground (arith, range.decoded, decoded_is))
            (sym (moved wire_is decoded_is) ∙ left);
      objects_fit = ground (arith, range.objects, objects_is);
      events_fit = ground (arith, range.events, events_is);
    }

Adds-exact :
    (a b max : ℤ) (n : ℕ)
    → n ≤ max_int64
    → is_nonnegative a ≡ true
    → le64 a (sub64 (pos max_int64) (pos n)) ≡ true
    → b ≡ add64 a (pos n)
    → le64 b max ≡ true
    → Adds n a b max
Adds-exact (negsuc a) b max n small nonneg room sum le = absurd ground (arith, nonneg)
Adds-exact (pos a) b max n small nonneg room sum le =
    let inside : a + n ≤ max_int64 =
      ground (arith, room, ap (le64 (pos a)) (sub64_exact n small)) in
    let becomes : b ≡ pos (a + n) = sum ∙ add64_exact a n inside in
    go max (sym (ap (λ x. le64 x max) becomes) ∙ le) becomes
  where
    go : (max : ℤ) → le64 (pos (a + n)) max ≡ true → b ≡ pos (a + n) → Adds n (pos a) b max
    go (negsuc m) le becomes = absurd ground (arith, le)
    go (pos m) le becomes = record {
      held = a;
      budget = m;
      was = refl;
      becomes = becomes;
      budgeted = refl;
      fits = ground (arith, le);
    }

-- One counter of `addUsage`, for a charge that is a count.
Adds-of :
    (a u b max : ℤ) (n : ℕ)
    → u ≡ pos n
    → n ≤ max_int64
    → is_nonnegative a ≡ true
    → le64 a (sub64 (pos max_int64) u) ≡ true
    → b ≡ add64 a u
    → le64 b max ≡ true
    → Adds n a b max
Adds-of a u b max n count small nonneg room sum le =
    Adds-exact a b max n small nonneg
      (sym (ap (λ x. le64 a (sub64 (pos max_int64) x)) count) ∙ room) (sum ∙ ap (add64 a) count) le

pub Billed-of :
    (c : Cost) (l : Limits) (before after max : Usage)
    → InRange c
    → cost_within c l ≡ true
    → add_usage before (charge c) ≡ ok after
    → usage_within after max ≡ true
    → Billed c before after max
unfolding add_usage charge usage_within usage_nonnegative
Billed-of c l before after max range within sum fits =
    let k = Counts-of c l range within in
    let bytes : (charge c).bytes ≡ pos (k.wire + k.decoded + 4096) =
      ap (λ x. add64 x (pos 4096))
        (ap (λ x. add64 x c.decoded_bytes) k.wire_is
          ∙ (ap (add64 (pos k.wire)) k.decoded_is
              ∙ add64_exact k.wire k.decoded (omega (arith, k.room))))
      ∙ add64_exact (k.wire + k.decoded) 4096 k.room in
    record {
      wire = k.wire;
      decoded = k.decoded;
      objects = k.objects;
      events = k.events;
      wire_is = k.wire_is;
      decoded_is = k.decoded_is;
      objects_is = k.objects_is;
      events_is = k.events_is;
      bytes_add =
          Adds-of before.bytes (charge c).bytes after.bytes max.bytes (k.wire + k.decoded + 4096)
            bytes k.room (ground (arith, sum)) (ground (arith, sum)) (ground (arith, sum))
            (ground (arith, fits));
      objects_add =
          Adds-of before.objects c.objects after.objects max.objects k.objects k.objects_is
            k.objects_fit (ground (arith, sum)) (ground (arith, sum)) (ground (arith, sum))
            (ground (arith, fits));
      events_add =
          Adds-of before.events c.events after.events max.events k.events k.events_is k.events_fit
            (ground (arith, sum)) (ground (arith, sum)) (ground (arith, sum))
            (ground (arith, fits));
      requests_add =
          Adds-of before.requests (pos 1) after.requests max.requests 1 refl (omega arith)
            (ground (arith, sum)) (ground (arith, sum)) (ground (arith, sum))
            (ground (arith, fits));
    }
