-- ===== src/Contribution/Ledger/Windows.antt =====
-- internal/contribution/policy.go: the windows of a ledger, and its tally under another window.
use mathlib.Core.Path.{subst}
use hubnot.Prelude.{
  ◌≡◌, refl, ap, ◌∙◌, arith, true, false, ◌||◌, String, List, [], ◌∷◌, ◌++◌, ok, >>=-eq-ok, ◌==◌,
  eq_iff, eq_refl, map,
}
use hubnot.Prelude.Strings.{mem, mem-cons_self, distinct, Within}
use hubnot.Contribution.Checks.{bounded_text}
use hubnot.Contribution.Quota.{no_usage}
use hubnot.Contribution.Ledger.{
  Reservation, Tally, count_reservation, count_reservations, collect_windows,
}

abbrev pub windows_of : List Reservation → List String
windows_of rs = map (λ r. r.window) rs

pub collect-mem :
    (a : String) (ws prior : List String) {out : List String}
    → collect_windows ws prior ≡ ok out
    → mem a out ≡ (mem a ws || mem a prior)
unfolding collect_windows mem
collect-mem a ws [] h = ground arith
collect-mem a ws (p ∷ prior) h = collect-mem a (p ∷ ws) prior (ground arith) ∙ ground arith

pub apart :
    (a : String) (ws prior : List String) {out : List String}
    → collect_windows ws prior ≡ ok out
    → mem a ws ≡ true
    → mem a prior ≡ false
unfolding collect_windows mem
apart a ws [] h m = refl
apart a ws (q ∷ prior) {out} h m =
    ground (arith, eq_iff q a, apart a (q ∷ ws) prior {out = out} (ground arith) (ground arith))

pub collect-distinct :
    (ws prior : List String) {out : List String}
    → collect_windows ws prior ≡ ok out
    → distinct prior ≡ true
unfolding collect_windows distinct
collect-distinct ws [] h = refl
collect-distinct ws (p ∷ prior) {out} h =
    let rest : collect_windows (p ∷ ws) prior ≡ ok out = ground arith in
    ground (
      arith,
      collect-distinct (p ∷ ws) prior rest,
      apart p (p ∷ ws) prior rest (mem-cons_self p ws),
    )

pub collect_other :
    (ws vs prior : List String) {out : List String}
    → collect_windows ws prior ≡ ok out
    → ((a : String) → mem a prior ≡ true → mem a vs ≡ true → mem a ws ≡ true)
    → (out' : List String) × (collect_windows vs prior ≡ ok out')
unfolding collect_windows mem
collect_other ws vs [] h sub = (vs, refl)
collect_other ws vs (p ∷ prior) {out} h sub =
    let (final, run) =
      collect_other (p ∷ ws) (p ∷ vs) prior {out = out} (ground arith)
        (λ a m n. ground (arith, sub a)) in
    (final, ground (arith, run, sub p, eq_refl p))

pub collect-snoc :
    (ws prior : List String) (w : String) {out : List String}
    → collect_windows ws prior ≡ ok out
    → bounded_text w 128 ≡ true
    → mem w out ≡ false
    → collect_windows ws (prior ++ w ∷ []) ≡ ok (w ∷ out)
unfolding collect_windows
collect-snoc ws [] w h b m = ground arith
collect-snoc ws (p ∷ prior) w h b m =
    ground (arith, collect-snoc (p ∷ ws) prior w (ground arith) b m)

-- A tally in another window: nothing is counted in the window, and the rest is the same.
pub record Elsewhere (t u : Tally) : Type 0 where
  pub same_retained : u.retained ≡ t.retained
  pub same_intents : u.intents ≡ t.intents
  pub empty_window : u.window ≡ no_usage

count_one :
    (current next : String) (ws vs : List String) (t t' u : Tally) (r : Reservation)
    → count_reservation current ws t r ≡ ok u
    → mem next ws ≡ false
    → Within ws vs
    → Elsewhere t t'
    → (u' : Tally) × (count_reservation next vs t' r ≡ ok u') × Elsewhere u u'
unfolding count_reservation
count_one current next ws vs t t' u r h n sub e =
    let apart_window : (r.window == next) ≡ false = ground (arith, eq_iff r.window next) in
    let intents = ap (mem r.intent) e.same_intents in
    (
      record { retained = u.retained; window = no_usage; intents = u.intents },
      ground (arith, sub r.window, e.same_retained, e.same_intents, e.empty_window),
      record { same_retained = refl; same_intents = refl; empty_window = refl },
    )

pub count_other :
    (current next : String) (ws vs : List String) (t t' : Tally) {u : Tally} (rs : List Reservation)
    → count_reservations current ws t rs ≡ ok u
    → mem next ws ≡ false
    → Within ws vs
    → Elsewhere t t'
    → (u' : Tally) × (count_reservations next vs t' rs ≡ ok u') × Elsewhere u u'
unfolding count_reservations
count_other current next ws vs t t' {u} [] h n sub e =
    let same : t ≡ u = cc in (t', refl, subst (λ x. Elsewhere x t') same e)
count_other current next ws vs t t' (r ∷ rs) h n sub e =
    let (v, first, rest) =
      >>=-eq-ok (count_reservation current ws t r) (λ v. count_reservations current ws v rs) h in
    let (v', first', e') = count_one current next ws vs t t' v r first n sub e in
    let (u', rest', last) = count_other current next ws vs v v' rs rest n sub e' in
    (u', rw first' rest', last)
