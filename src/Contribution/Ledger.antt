-- ===== src/Contribution/Ledger.antt =====
-- internal/contribution/policy.go: the ledger of intake.
mod Tallies
pub mod Billing
mod Windows
mod Parts
pub mod Reserving
pub mod Rolling
use hubnot.Prelude.{
  ℕ, Bool, true, false, not, ◌&&◌, ◌||◌, String, List, [], ◌∷◌, ◌++◌, Option, none, some, Result,
  ok, err, errorf, Checked, refuse, ◌>>=◌, ◌>>◌, ◌==◌, if◌then◌else◌, ltb, leb, length, has,
}
use hubnot.Prelude.Strings.{mem}
use hubnot.Contribution.Checks.{max_graph_records, err_authority, valid_id, bounded_text}
use hubnot.Contribution.Quota.{
  Cost, Usage, no_usage, validate_cost, cost_within, usage_within, add_usage, charge, cost_eqb,
  usage_eqb, passes,
}
use hubnot.Contribution.Rules.{ContributionPolicy, validate_contributions}

pub record Reservation : Type 0 where
  pub intent : String
  pub artifact : String
  pub cost : Cost
  pub window : String

pub record Ledger : Type 0 where
  pub prior_windows : List String
  pub project : String
  pub window : String
  pub window_used : Usage
  pub retained_used : Usage
  pub reservations : List Reservation

-- The set of windows that `validate` builds, and its test of the window history.
unfoldable pub collect_windows : List String → List String → Result (List String)
collect_windows windows [] = ok windows
collect_windows windows (w ∷ prior) =
    refuse (not (bounded_text w 128) || mem w windows) (errorf "invalid window history" [])
    >> collect_windows (w ∷ windows) prior

pub record Tally : Type 0 where
  pub retained : Usage
  pub window : Usage
  pub intents : List String

-- One round of the loop of `validate` over the reservations.
unfoldable pub count_reservation : String → List String → Tally → Reservation → Result Tally
count_reservation current windows t r = do
  refuse
      (not (bounded_text r.intent 128)
        || not (valid_id r.artifact)
        || not (passes (validate_cost r.cost))
        || not (mem r.window windows)
        || mem r.intent t.intents)
      (errorf "invalid retained reservation" [])
  retained ← add_usage t.retained (charge r.cost)
  window ← if r.window == current then add_usage t.window (charge r.cost) else ok t.window
  ok (record { retained = retained; window = window; intents = r.intent ∷ t.intents })

unfoldable pub count_reservations : String → List String → Tally → List Reservation → Result Tally
count_reservations current windows t [] = ok t
count_reservations current windows t (r ∷ rs) =
    count_reservation current windows t r >>= λ u. count_reservations current windows u rs

abbrev pub empty_tally : Tally
empty_tally = record { retained = no_usage; window = no_usage; intents = [] }

unfoldable pub validate_ledger : Ledger → Checked
validate_ledger l = do
  refuse
      (not (valid_id l.project)
        || not (bounded_text l.window 128)
        || ltb max_graph_records (length l.reservations)
        || ltb max_graph_records (length l.prior_windows)
        || ltb (length l.reservations) (length l.prior_windows))
      (errorf "invalid ledger" [])
  windows ← collect_windows (l.window ∷ []) l.prior_windows
  t ← count_reservations l.window windows empty_tally l.reservations
  refuse (not (usage_eqb t.retained l.retained_used) || not (usage_eqb t.window l.window_used))
      (errorf "ledger counters differ from retained reservations" [])

-- The loop of `Reserve` over the reservations: the first with the intent.
unfoldable pub find_intent : String → List Reservation → Option Reservation
find_intent intent [] = none
find_intent intent (r ∷ rs) = if r.intent == intent then some r else find_intent intent rs

-- `cloneLedger` copies the slices, so the result shares nothing with its argument; a value of the
-- model is never shared, and the copy is the value itself.
unfoldable pub reserve :
    Ledger → ContributionPolicy → String → String → Cost → Result (Ledger × Bool)
reserve l p intent artifact cost = do
  validate_contributions p
  refuse
      (not (l.project == p.project)
        || not (bounded_text l.window 128)
        || not (bounded_text intent 128)
        || not (valid_id artifact)
        || not (passes (validate_ledger l)))
      (errorf "invalid reservation or project scope" [])
  refuse (ltb max_graph_records (length l.reservations)) (errorf "retained reservation limit" [])
  elim (find_intent intent l.reservations) [
    | some r ↦
        refuse (not (r.artifact == artifact) || not (cost_eqb r.cost cost))
          (errorf "conflicting operation intent" [])
        >> ok (l, true)
    | none ↦ do
      refuse (not (cost_within cost p.limits)) (errorf "request budget exceeded" [])
      window ← add_usage l.window_used (charge cost)
      retained ← add_usage l.retained_used (charge cost)
      refuse
          (not (usage_within window p.limits.window)
            || not (usage_within retained p.limits.retained)
            || leb max_graph_records (length l.reservations))
          (errorf "project intake budget exhausted" [])
      ok (
        record l {
          window_used = window;
          retained_used = retained;
          reservations =
              l.reservations
              ++ record { intent = intent; artifact = artifact; cost = cost; window = l.window }
                ∷ [];
        },
        false,
      )
  ]

unfoldable pub rollover : Ledger → ContributionPolicy → String → String → Bool → Result Ledger
rollover l p expected next authorized = do
  validate_contributions p
  refuse
      (not authorized
        || not (l.project == p.project)
        || not (l.window == expected)
        || not (bounded_text next 128)
        || next == expected
        || mem next l.prior_windows
        || not (passes (validate_ledger l)))
      err_authority
  refuse
      (not (has (λ r. r.window == l.window) l.reservations)
        || leb max_graph_records (length l.prior_windows))
      (errorf "cannot roll over an empty window" [])
  ok (record l {
    prior_windows = l.prior_windows ++ l.window ∷ [];
    window = next;
    window_used = no_usage;
  })
