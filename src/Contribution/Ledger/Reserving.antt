-- ===== src/Contribution/Ledger/Reserving.antt =====
-- internal/contribution/policy.go: about `Reserve`.
use hubnot.Prelude.{
  ◌≡◌, refl, ◌∙◌, Bool, true, false, String, List, [], ◌∷◌, ◌++◌, none, some, ok, arith, ltb, leb,
  length, length-append, ◌==◌, eq_refl, ◌+◌,
}
use hubnot.Prelude.Strings.{mem}
use hubnot.Contribution.Checks.{max_graph_records, valid_id, bounded_text}
use hubnot.Contribution.Quota.{
  Cost, usage_within, add_usage, charge, validate_cost, cost_within, passes,
}
use hubnot.Contribution.Rules.{ContributionPolicy, validate_contributions}
use hubnot.Contribution.Ledger.{
  Reservation, Ledger, empty_tally, count_reservation, collect_windows, validate_ledger,
  find_intent, reserve,
}
use hubnot.Contribution.Ledger.Billing.{InRange, Billed, Billed-of}
use hubnot.Contribution.Ledger.Tallies.{
  count-snoc, count_fresh, collect_keeps, find-snoc, cost_eqb_refl,
}
use hubnot.Contribution.Ledger.Parts.{Parts, Parts-of, of_Parts}

-- The reservation that `Reserve` adds.
abbrev pub reservation : Ledger → String → String → Cost → Reservation
reservation l intent artifact cost = record {
  intent = intent;
  artifact = artifact;
  cost = cost;
  window = l.window;
}

-- What a new reservation went through.
pub record Charged (l : Ledger) (p : ContributionPolicy) (intent artifact : String) (cost : Cost)
    (next : Ledger) : Type 0 where
  pub permitted : validate_contributions p ≡ ok tt
  pub scoped : (l.project == p.project) ≡ true
  pub windowed : bounded_text l.window 128 ≡ true
  pub named : bounded_text intent 128 ≡ true
  pub identified : valid_id artifact ≡ true
  pub checked : validate_ledger l ≡ ok tt
  pub fresh : find_intent intent l.reservations ≡ none
  pub affordable : cost_within cost p.limits ≡ true
  pub window_sum : add_usage l.window_used (charge cost) ≡ ok next.window_used
  pub retained_sum : add_usage l.retained_used (charge cost) ≡ ok next.retained_used
  pub window_fits : usage_within next.window_used p.limits.window ≡ true
  pub retained_fits : usage_within next.retained_used p.limits.retained ≡ true
  pub room : leb max_graph_records (length l.reservations) ≡ false
  pub same_project : next.project ≡ l.project
  pub same_window : next.window ≡ l.window
  pub same_prior : next.prior_windows ≡ l.prior_windows
  pub added : next.reservations ≡ l.reservations ++ reservation l intent artifact cost ∷ []

pub charged :
    (l : Ledger) (p : ContributionPolicy) (intent artifact : String) (cost : Cost) {next : Ledger}
    → reserve l p intent artifact cost ≡ ok (next, false)
    → Charged l p intent artifact cost next
unfolding reserve
charged l p intent artifact cost {next} h = ground arith

-- What a repeated intent went through.
pub record Replayed (l : Ledger) (p : ContributionPolicy) (intent artifact : String) (cost : Cost)
    (next : Ledger) : Type 0 where
  pub unchanged : next ≡ l
  pub checked : validate_ledger l ≡ ok tt

pub replayed :
    (l : Ledger) (p : ContributionPolicy) (intent artifact : String) (cost : Cost) {next : Ledger}
    → reserve l p intent artifact cost ≡ ok (next, true)
    → Replayed l p intent artifact cost next
unfolding reserve
replayed l p intent artifact cost {next} h = ground arith

collect_head :
    (w : String) (prior : List String) {out : List String}
    → collect_windows (w ∷ []) prior ≡ ok out
    → mem w out ≡ true
unfolding mem
collect_head w prior h = collect_keeps (w ∷ []) prior w h (ground (arith, eq_refl w))

cost_checked :
    (c : Cost) (p : ContributionPolicy)
    → cost_within c p.limits ≡ true
    → passes (validate_cost c) ≡ true
unfolding cost_within
cost_checked c p h = ground arith

-- The new reservation is counted in both sums.
count_new :
    {l next : Ledger} {p : ContributionPolicy} {intent artifact : String} {cost : Cost}
    → Charged l p intent artifact cost next
    → (parts : Parts l)
    → count_reservation l.window parts.windows parts.tally (reservation l intent artifact cost)
      ≡ ok (record {
        retained = next.retained_used;
        window = next.window_used;
        intents = intent ∷ parts.tally.intents;
      })
unfolding count_reservation
count_new {l} {next} {p} {intent} {artifact} {cost} c parts =
    let known =
      count_fresh l.window parts.windows empty_tally l.reservations intent parts.counted c.fresh in
    let seen : mem intent parts.tally.intents ≡ false = known ∙ unfold mem in refl in
    rw (
      c.named,
      c.identified,
      cost_checked cost p c.affordable,
      collect_head l.window l.prior_windows parts.collected,
      seen,
      parts.retained,
      parts.window,
      c.retained_sum,
      eq_refl l.window,
      c.window_sum,
    )

Charged-valid :
    {l next : Ledger} {p : ContributionPolicy} {intent artifact : String} {cost : Cost}
    → Charged l p intent artifact cost next
    → Parts l
    → validate_ledger next ≡ ok tt
unfolding validate_ledger
Charged-valid {l} {next} {p} {intent} {artifact} {cost} c parts =
    let r = reservation l intent artifact cost in
    let count = count-snoc l.window parts.windows empty_tally l.reservations r in
    let longer = length-append l.reservations (r ∷ []) in
    let formed = parts.formed in
    let room = c.room in
    of_Parts next (record {
      formed = rw (c.same_project, c.same_window, c.same_prior, c.added) (ground arith);
      windows = parts.windows;
      collected = rw (c.same_window, c.same_prior) parts.collected;
      tally = record {
        retained = next.retained_used;
        window = next.window_used;
        intents = intent ∷ parts.tally.intents;
      };
      counted = rw (c.same_window, c.added, count, parts.counted) (count_new c parts);
      retained = refl;
      window = refl;
    })

-- Whatever `Reserve` returns is a valid ledger, also when the ledger it was given is not: it refuses
-- that.
pub reserve_valid :
    (l : Ledger) (p : ContributionPolicy) (intent artifact : String) (cost : Cost) (next : Ledger)
    (replay : Bool)
    → reserve l p intent artifact cost ≡ ok (next, replay)
    → validate_ledger next ≡ ok tt
reserve_valid l p intent artifact cost next true run =
    let v = replayed l p intent artifact cost run in rw v.unchanged v.checked
reserve_valid l p intent artifact cost next false run =
    let c = charged l p intent artifact cost run in Charged-valid c (Parts-of l c.checked)

-- A reservation that `Reserve` made is answered by a replay when it is asked for again: the ledger
-- stays as it is and nothing is charged twice.
pub reserve_again :
    (l : Ledger) (p : ContributionPolicy) (intent artifact : String) (cost : Cost) (next : Ledger)
    → reserve l p intent artifact cost ≡ ok (next, false)
    → reserve next p intent artifact cost ≡ ok (next, true)
unfolding reserve
reserve_again l p intent artifact cost next run =
    let c = charged l p intent artifact cost run in
    let r = reservation l intent artifact cost in
    let valid = Charged-valid c (Parts-of l c.checked) in
    let found : find_intent intent next.reservations ≡ some r =
      rw c.added (find-snoc intent l.reservations r c.fresh refl) in
    let longer = length-append l.reservations (r ∷ []) in
    let count : length next.reservations ≡ length l.reservations + 1 = rw c.added (ground arith) in
    let small : ltb max_graph_records (length next.reservations) ≡ false = ground (arith, c.room) in
    let project : (next.project == p.project) ≡ true = rw c.same_project c.scoped in
    let window : bounded_text next.window 128 ≡ true = rw c.same_window c.windowed in
    rw (
      c.permitted,
      project,
      window,
      c.named,
      c.identified,
      valid,
      small,
      found,
      eq_refl artifact,
      cost_eqb_refl cost,
    )

-- A reservation that `Reserve` makes is added behind the others, with the current window; both usages,
-- of the window and of all that is retained, grow by the bytes of the cost and 4096 more, by its
-- objects, its events and one request, as exact sums of natural numbers, and each stays within the
-- budget of the policy; the project, the window and the past windows stay as they are. The numbers of
-- the cost are values of `int64`.
pub reserve_charges :
    (l : Ledger) (p : ContributionPolicy) (intent artifact : String) (cost : Cost) (next : Ledger)
    → InRange cost
    → reserve l p intent artifact cost ≡ ok (next, false)
    → (next.reservations ≡ l.reservations ++ reservation l intent artifact cost ∷ [])
      × Billed cost l.window_used next.window_used p.limits.window
      × Billed cost l.retained_used next.retained_used p.limits.retained
      × (next.project ≡ l.project)
      × (next.window ≡ l.window)
      × (next.prior_windows ≡ l.prior_windows)
reserve_charges l p intent artifact cost next range run =
    let c = charged l p intent artifact cost run in
    (
      c.added,
      Billed-of cost p.limits l.window_used next.window_used p.limits.window range c.affordable
          c.window_sum c.window_fits,
      Billed-of cost p.limits l.retained_used next.retained_used p.limits.retained range
          c.affordable c.retained_sum c.retained_fits,
      c.same_project,
      c.same_window,
      c.same_prior,
    )
