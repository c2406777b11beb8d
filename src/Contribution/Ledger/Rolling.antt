-- ===== src/Contribution/Ledger/Rolling.antt =====
-- internal/contribution/policy.go: about `Rollover`, and the ledgers that the two operations reach.
use mathlib.Core.Path.{subst}
use hubnot.Prelude.{
  ◌≡◌, refl, sym, ap, ◌∙◌, ◌+◌, ◌≤◌, arith, Bool, true, false, String, List, [], ◌∷◌, ◌++◌, ok, leb,
  length, length-map, length-append, has, ◌==◌, eq_iff,
}
use hubnot.Prelude.Strings.{mem, mem-cons_self, mem-append, distinct, Within, length-le-of_distinct}
use hubnot.Contribution.Checks.{max_graph_records, valid_id, bounded_text}
use hubnot.Contribution.Quota.{Cost, no_usage, usage_eqb}
use hubnot.Contribution.Rules.{ContributionPolicy}
use hubnot.Contribution.Ledger.{
  Reservation, Ledger, empty_tally, count_reservations, collect_windows, validate_ledger, reserve,
  rollover,
}
use hubnot.Contribution.Ledger.Parts.{Parts, Parts-of, of_Parts}
use hubnot.Contribution.Ledger.Reserving.{charged, replayed, reserve_valid, reservation}
use hubnot.Contribution.Ledger.Windows.{
  windows_of, collect-mem, collect-distinct, collect_other, collect-snoc, count_other, apart,
}

-- What a rollover went through.
pub record Rolled (l : Ledger) (expected next : String) (authorized : Bool) (out : Ledger)
    : Type 0 where
  pub permitted : authorized ≡ true
  pub expects : (l.window == expected) ≡ true
  pub bounded : bounded_text next 128 ≡ true
  pub changes : (next == expected) ≡ false
  pub unused : mem next l.prior_windows ≡ false
  pub checked : validate_ledger l ≡ ok tt
  pub nonempty : has (λ r. r.window == l.window) l.reservations ≡ true
  pub room : leb max_graph_records (length l.prior_windows) ≡ false
  pub result : out ≡ record l {
    prior_windows = l.prior_windows ++ l.window ∷ [];
    window = next;
    window_used = no_usage;
  }

pub rolled :
    (l : Ledger) (p : ContributionPolicy) (expected next : String) (authorized : Bool)
    {out : Ledger}
    → rollover l p expected next authorized ≡ ok out
    → Rolled l expected next authorized out
unfolding rollover
rolled l p expected next authorized {out} h = ground arith

-- Every past window has a reservation.
pub Settled : Ledger → Type 0
Settled l = Within l.prior_windows (windows_of l.reservations)

mem-windows :
    (w : String) (rs : List Reservation) → mem w (windows_of rs) ≡ has (λ r. r.window == w) rs
unfolding mem has
mem-windows w [] = refl
mem-windows w (r ∷ rs) = ground (arith, mem-windows w rs)

windows-append :
    (w : String) (rs ss : List Reservation)
    → mem w (windows_of rs) ≡ true
    → mem w (windows_of (rs ++ ss)) ≡ true
unfolding mem
windows-append w [] ss m = absurd ground arith
windows-append w (r ∷ rs) ss m = ground (arith, windows-append w rs ss)

module _ (l : Ledger) (next : String) (parts : Parts l) (settled : Settled l)
    (bounded : bounded_text next 128 ≡ true) (changes : (next == l.window) ≡ false)
    (unused : mem next l.prior_windows ≡ false)
    (nonempty : has (λ r. r.window == l.window) l.reservations ≡ true)
    (room : leb max_graph_records (length l.prior_windows) ≡ false) where
  abbrev after : Ledger
  after = record l {
    prior_windows = l.prior_windows ++ l.window ∷ [];
    window = next;
    window_used = no_usage;
  }

  -- The current window and the past ones, which are different, all have a reservation.
  few_windows : length l.prior_windows + 1 ≤ length l.reservations
  unfolding Settled
  few_windows =
      let used : Within (l.window ∷ l.prior_windows) (windows_of l.reservations) = λ a m.
        unfold mem in
        ground (arith, eq_iff l.window a, settled a, mem-windows l.window l.reservations) in
      let single =
        apart l.window (l.window ∷ []) l.prior_windows parts.collected
          (mem-cons_self l.window []) in
      let once : distinct (l.window ∷ l.prior_windows) ≡ true =
        unfold distinct in
        ground (arith, single, collect-distinct (l.window ∷ []) l.prior_windows parts.collected) in
      ground (
        arith,
        length-map (λ (r : Reservation). r.window) l.reservations,
        length-le-of_distinct (l.window ∷ l.prior_windows) (windows_of l.reservations) once used,
      )

  fresh_next : mem next parts.windows ≡ false
  fresh_next =
      collect-mem next (l.window ∷ []) l.prior_windows parts.collected
      ∙ unfold mem in ground (arith, unused, eq_iff l.window next, eq_iff next l.window)

  after-valid : validate_ledger after ≡ ok tt
  after-valid =
      let single =
        apart l.window (l.window ∷ []) l.prior_windows parts.collected
          (mem-cons_self l.window []) in
      let (windows, collected) =
        collect_other (l.window ∷ []) (next ∷ []) l.prior_windows parts.collected
          (λ a m n. absurd (unfold mem in ground (arith, eq_iff next a, unused, m, n))) in
      let absent : mem l.window windows ≡ false =
        collect-mem l.window (next ∷ []) l.prior_windows collected
        ∙ unfold mem in ground (arith, single, changes) in
      let wide : Within parts.windows (l.window ∷ windows) = λ a m.
        unfold mem in
        ground (
          arith,
          m,
          collect-mem a (l.window ∷ []) l.prior_windows parts.collected,
          collect-mem a (next ∷ []) l.prior_windows collected,
        ) in
      let (tally, counted, elsewhere) =
        count_other l.window next parts.windows (l.window ∷ windows) empty_tally empty_tally
          l.reservations parts.counted fresh_next wide
          (record { same_retained = refl; same_intents = refl; empty_window = refl }) in
      let more = length-append l.prior_windows (l.window ∷ []) in
      let few = few_windows in
      let formed = parts.formed in
      of_Parts after (record {
        formed = ground arith;
        windows = l.window ∷ windows;
        collected =
            collect-snoc (next ∷ []) l.prior_windows l.window collected (ground arith) absent;
        tally = tally;
        counted = counted;
        retained = elsewhere.same_retained ∙ parts.retained;
        window = elsewhere.empty_window;
      })

  after-Settled : Settled after
  unfolding Settled
  after-Settled a m =
      unfold mem in
      ground (
        arith,
        m,
        mem-append a l.prior_windows (l.window ∷ []),
        settled a,
        eq_iff l.window a,
        mem-windows l.window l.reservations,
      )

-- A step of the ledger: a reservation, a replay or a rollover that was accepted.
pub data Step : Ledger → Ledger → Type 0 where
  reserving :
      {l next : Ledger} (p : ContributionPolicy) (intent artifact : String) (cost : Cost)
      (replay : Bool)
      → reserve l p intent artifact cost ≡ ok (next, replay)
      → Step l next
  rolling :
      {l out : Ledger} (p : ContributionPolicy) (expected next : String) (authorized : Bool)
      → rollover l p expected next authorized ≡ ok out
      → Step l out

pub data Steps : Ledger → Ledger → Type 0 where
  done : {l : Ledger} → Steps l l
  then : {l m n : Ledger} → Step l m → Steps m n → Steps l n

-- A ledger before its first reservation.
abbrev pub new_ledger : String → String → Ledger
new_ledger project window = record {
  prior_windows = [];
  project = project;
  window = window;
  window_used = no_usage;
  retained_used = no_usage;
  reservations = [];
}

Step-valid :
    (l m : Ledger)
    → Step l m
    → validate_ledger l ≡ ok tt
    → Settled l
    → (validate_ledger m ≡ ok tt) × Settled m
unfolding Settled
Step-valid l m (Step.reserving p intent artifact cost true run) valid settled =
    let same = (replayed l p intent artifact cost run).unchanged in
    (reserve_valid l p intent artifact cost m true run, subst Settled (sym same) settled)
Step-valid l m (Step.reserving p intent artifact cost false run) valid settled =
    let c = charged l p intent artifact cost run in
    (
      reserve_valid l p intent artifact cost m false run,
      λ w h.
          ap (λ rs. mem w (windows_of rs)) c.added
          ∙ windows-append w l.reservations (reservation l intent artifact cost ∷ [])
              (settled w (ap (mem w) (sym c.same_prior) ∙ h)),
    )
Step-valid l m (Step.rolling p expected next authorized run) valid settled =
    let r = rolled l p expected next authorized run in
    let parts = Parts-of l r.checked in
    let changes : (next == l.window) ≡ false =
      ground (arith, r.changes, r.expects, eq_iff l.window expected) in
    (
      subst (λ x. validate_ledger x ≡ ok tt) (sym r.result)
          (after-valid l next parts settled r.bounded changes r.unused r.nonempty r.room),
      subst Settled (sym r.result)
          (after-Settled l next parts settled r.bounded changes r.unused r.nonempty r.room),
    )

Steps-valid :
    (l m : Ledger) → Steps l m → validate_ledger l ≡ ok tt → Settled l → validate_ledger m ≡ ok tt
Steps-valid l m Steps.done valid settled = valid
Steps-valid l n (Steps.then {m = m} step more) valid settled =
    let (valid', settled') = Step-valid l m step valid settled in
    Steps-valid m n more valid' settled'

-- Every ledger that accepted reservations, replays and rollovers reach from a new ledger with a valid
-- project and window is valid.
pub reachable_valid :
    (project window : String) (l : Ledger)
    → valid_id project ≡ true
    → bounded_text window 128 ≡ true
    → Steps (new_ledger project window) l
    → validate_ledger l ≡ ok tt
unfolding validate_ledger count_reservations collect_windows Settled
reachable_valid project window l named bounded steps =
    Steps-valid (new_ledger project window) l steps (rw (named, bounded) (unfold usage_eqb in refl))
      (λ a m. absurd (unfold mem in ground (arith, m)))
