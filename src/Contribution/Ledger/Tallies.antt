-- ===== src/Contribution/Ledger/Tallies.antt =====
-- internal/contribution/policy.go: the tally of reservations in `validate` of the ledger.
use hubnot.Prelude.{
  ◌≡◌, refl, ◌∙◌, true, String, List, [], ◌∷◌, ◌++◌, none, some, Result, ok, err, arith, >>=-eq-ok,
  ◌>>=◌, eq_iff, ℤ, pos, negsuc, int_eqb, inl, inr, Result-cases,
}
use hubnot.Prelude.Strings.{mem}
use hubnot.Contribution.Quota.{Usage, usage_eqb, Cost, cost_eqb}
use hubnot.Contribution.Ledger.{
  Reservation, Tally, count_reservation, count_reservations, collect_windows, find_intent,
}

int_eqb→eq : (a b : ℤ) → int_eqb a b ≡ true → a ≡ b
int_eqb→eq (pos m) (pos n) h = ground arith
int_eqb→eq (pos m) (negsuc n) h = absurd cc
int_eqb→eq (negsuc m) (pos n) h = absurd cc
int_eqb→eq (negsuc m) (negsuc n) h = ground arith

int_eqb_refl : (a : ℤ) → int_eqb a a ≡ true
int_eqb_refl (pos n) = ground arith
int_eqb_refl (negsuc n) = ground arith

pub usage_eqb→eq : (a b : Usage) → usage_eqb a b ≡ true → a ≡ b
unfolding usage_eqb
usage_eqb→eq a b h = ground (
  arith,
  int_eqb→eq a.bytes b.bytes,
  int_eqb→eq a.objects b.objects,
  int_eqb→eq a.events b.events,
  int_eqb→eq a.requests b.requests,
)

pub usage_eqb_refl : (a : Usage) → usage_eqb a a ≡ true
unfolding usage_eqb
usage_eqb_refl a =
    rw
      (int_eqb_refl a.bytes, int_eqb_refl a.objects, int_eqb_refl a.events, int_eqb_refl a.requests)

pub cost_eqb_refl : (a : Cost) → cost_eqb a a ≡ true
unfolding cost_eqb
cost_eqb_refl a = rw (
  int_eqb_refl a.wire_bytes,
  int_eqb_refl a.decoded_bytes,
  int_eqb_refl a.objects,
  int_eqb_refl a.events,
  int_eqb_refl a.depth,
  int_eqb_refl a.milliseconds,
)

bind_assoc {ℓ} :
    {A B C : Type ℓ} (m : Result A) (f : A → Result B) (g : B → Result C)
    → ((m >>= f) >>= g) ≡ (m >>= λ a. f a >>= g)
bind_assoc (ok a) f g = refl
bind_assoc (err e) f g = refl

bind_ok {ℓ} : {A : Type ℓ} (m : Result A) → (m >>= λ a. ok a) ≡ m
bind_ok (ok a) = refl
bind_ok (err e) = refl

-- The last reservation is counted last.
pub count-snoc :
    (current : String) (windows : List String) (t : Tally) (rs : List Reservation) (r : Reservation)
    → count_reservations current windows t (rs ++ r ∷ [])
      ≡ (count_reservations current windows t rs >>= λ u. count_reservation current windows u r)
unfolding count_reservations
count-snoc current windows t [] r = bind_ok (count_reservation current windows t r)
count-snoc current windows t (x ∷ rs) r =
    elim (Result-cases (count_reservation current windows t x)) [
      | inl (u, run) ↦ rw run (count-snoc current windows u rs r)
      | inr (e, run) ↦ rw run
    ]

count_intent :
    (current : String) (windows : List String) (t u : Tally) (r : Reservation)
    → count_reservation current windows t r ≡ ok u
    → u.intents ≡ r.intent ∷ t.intents
unfolding count_reservation
count_intent current windows t u r h = ground arith

-- An intent that no reservation has is not among the intents counted.
pub count_fresh :
    (current : String) (windows : List String) (t : Tally) {u : Tally} (rs : List Reservation)
    (intent : String)
    → count_reservations current windows t rs ≡ ok u
    → find_intent intent rs ≡ none
    → mem intent u.intents ≡ mem intent t.intents
unfolding count_reservations find_intent mem
count_fresh current windows t [] intent h n = ground arith
count_fresh current windows t {u} (x ∷ rs) intent h n =
    let (v, first, rest) =
      >>=-eq-ok (count_reservation current windows t x)
        (λ v. count_reservations current windows v rs) h in
    count_fresh current windows v rs intent rest (ground arith)
    ∙ ground (arith, count_intent current windows t v x first)

pub collect_keeps :
    (windows prior : List String) {out : List String} (w : String)
    → collect_windows windows prior ≡ ok out
    → mem w windows ≡ true
    → mem w out ≡ true
unfolding collect_windows mem
collect_keeps windows [] w h m = ground arith
collect_keeps windows (p ∷ prior) w h m =
    collect_keeps (p ∷ windows) prior w (ground arith) (ground arith)

pub find-snoc :
    (intent : String) (rs : List Reservation) (r : Reservation)
    → find_intent intent rs ≡ none
    → r.intent ≡ intent
    → find_intent intent (rs ++ r ∷ []) ≡ some r
unfolding find_intent
find-snoc intent [] r n e = ground (arith, eq_iff r.intent intent)
find-snoc intent (x ∷ rs) r n e = ground (arith, find-snoc intent rs r)
