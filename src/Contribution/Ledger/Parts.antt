-- ===== src/Contribution/Ledger/Parts.antt =====
-- internal/contribution/policy.go, `validate` of the ledger, taken apart.
use hubnot.Prelude.{
  ◌≡◌, Bool, false, not, ◌||◌, String, List, [], ◌∷◌, ok, errorf, arith, >>=-eq-ok, ltb, length,
  refuse,
}
use hubnot.Contribution.Checks.{max_graph_records, valid_id, bounded_text}
use hubnot.Contribution.Ledger.{
  Ledger, Tally, empty_tally, count_reservations, collect_windows, validate_ledger,
}
use hubnot.Contribution.Ledger.Tallies.{usage_eqb→eq, usage_eqb_refl}

-- The first test of `validate`.
abbrev pub malformed : Ledger → Bool
malformed l =
    not (valid_id l.project)
    || not (bounded_text l.window 128)
    || ltb max_graph_records (length l.reservations)
    || ltb max_graph_records (length l.prior_windows)
    || ltb (length l.reservations) (length l.prior_windows)

pub record Parts (l : Ledger) : Type 0 where
  pub formed : malformed l ≡ false
  pub windows : List String
  pub collected : collect_windows (l.window ∷ []) l.prior_windows ≡ ok windows
  pub tally : Tally
  pub counted : count_reservations l.window windows empty_tally l.reservations ≡ ok tally
  pub retained : tally.retained ≡ l.retained_used
  pub window : tally.window ≡ l.window_used

pub Parts-of : (l : Ledger) → validate_ledger l ≡ ok tt → Parts l
unfolding validate_ledger
Parts-of l h =
    let (u, formed, rest) = >>=-eq-ok (refuse (malformed l) (errorf "invalid ledger" [])) _ h in
    let (windows, collected, rest') =
      >>=-eq-ok (collect_windows (l.window ∷ []) l.prior_windows) _ rest in
    let (t, counted, last) =
      >>=-eq-ok (count_reservations l.window windows empty_tally l.reservations) _ rest' in
    record {
      formed = ground arith;
      windows = windows;
      collected = collected;
      tally = t;
      counted = counted;
      retained = usage_eqb→eq t.retained l.retained_used (ground arith);
      window = usage_eqb→eq t.window l.window_used (ground arith);
    }

pub of_Parts : (l : Ledger) → Parts l → validate_ledger l ≡ ok tt
unfolding validate_ledger
of_Parts l p = rw (
  p.formed,
  p.collected,
  p.counted,
  p.retained,
  p.window,
  usage_eqb_refl l.retained_used,
  usage_eqb_refl l.window_used,
)
