-- ===== src/Contribution/Quota.antt =====
-- internal/contribution/policy.go: the cost of a request, the usage of a project and its limits.
use hubnot.Prelude.{
  Bool, not, ◌&&◌, ◌||◌, [], Result, ok, err, errorf, Checked, refuse, ◌>>◌, ℤ, pos, int_eqb,
}
use hubnot.Prelude.Int64.{max_int64, is_positive, is_nonnegative, le64, add64, sub64}

pub record Cost : Type 0 where
  pub wire_bytes : ℤ
  pub decoded_bytes : ℤ
  pub objects : ℤ
  pub events : ℤ
  pub depth : ℤ
  pub milliseconds : ℤ

pub record Usage : Type 0 where
  pub bytes : ℤ
  pub objects : ℤ
  pub events : ℤ
  pub requests : ℤ

pub record Limits : Type 0 where
  pub wire_bytes : ℤ
  pub decoded_bytes : ℤ
  pub objects : ℤ
  pub events : ℤ
  pub depth : ℤ
  pub milliseconds : ℤ
  pub window : Usage
  pub retained : Usage

-- The zero value `Usage{}`.
abbrev pub no_usage : Usage
no_usage = record { bytes = pos 0; objects = pos 0; events = pos 0; requests = pos 0 }

abbrev pub ledger_entry_bytes : ℤ
ledger_entry_bytes = pos 4096

unfoldable pub usage_positive : Usage → Bool
usage_positive u =
    is_positive u.bytes && is_positive u.objects && is_positive u.events && is_positive u.requests

unfoldable pub usage_nonnegative : Usage → Bool
usage_nonnegative u =
    is_nonnegative u.bytes
    && is_nonnegative u.objects
    && is_nonnegative u.events
    && is_nonnegative u.requests

unfoldable pub usage_within : Usage → Usage → Bool
unfolding usage_nonnegative
usage_within u max =
    usage_nonnegative u
    && le64 u.bytes max.bytes
    && le64 u.objects max.objects
    && le64 u.events max.events
    && le64 u.requests max.requests

unfoldable pub validate_cost : Cost → Checked
unfolding sub64
validate_cost c =
    refuse
      (not (is_positive c.wire_bytes)
        || not (is_positive c.decoded_bytes)
        || not (is_positive c.objects)
        || not (is_positive c.events)
        || not (is_positive c.depth)
        || not (is_positive c.milliseconds)
        || not
            (le64 c.wire_bytes (sub64 (sub64 (pos max_int64) c.decoded_bytes) ledger_entry_bytes)))
      (errorf "invalid finite request cost" [])

abbrev pub limits_cost : Limits → Cost
limits_cost l = record {
  wire_bytes = l.wire_bytes;
  decoded_bytes = l.decoded_bytes;
  objects = l.objects;
  events = l.events;
  depth = l.depth;
  milliseconds = l.milliseconds;
}

unfoldable pub validate_limits : Limits → Checked
unfolding validate_cost usage_positive
validate_limits l = do
  validate_cost (limits_cost l)
  refuse (not (usage_positive l.window) || not (usage_positive l.retained))
      (errorf "project budgets must be positive finite limits" [])

-- `err == nil`
abbrev pub passes : Checked → Bool
passes (ok u) = Bool.true
passes (err e) = Bool.false

unfoldable pub cost_within : Cost → Limits → Bool
unfolding validate_cost
cost_within c l =
    passes (validate_cost c)
    && le64 c.wire_bytes l.wire_bytes
    && le64 c.decoded_bytes l.decoded_bytes
    && le64 c.objects l.objects
    && le64 c.events l.events
    && le64 c.depth l.depth
    && le64 c.milliseconds l.milliseconds

-- `a > math.MaxInt64 - b`
abbrev overflows : ℤ → ℤ → Bool
overflows a b = not (le64 a (sub64 (pos max_int64) b))

unfoldable pub add_usage : Usage → Usage → Result Usage
unfolding usage_nonnegative add64 sub64
add_usage a b = do
  refuse
      (not (usage_nonnegative a)
        || not (usage_nonnegative b)
        || overflows a.bytes b.bytes
        || overflows a.objects b.objects
        || overflows a.events b.events
        || overflows a.requests b.requests)
      (errorf "accounting overflow" [])
  ok (record {
    bytes = add64 a.bytes b.bytes;
    objects = add64 a.objects b.objects;
    events = add64 a.events b.events;
    requests = add64 a.requests b.requests;
  })

-- What one reservation takes from the budgets.
unfoldable pub charge : Cost → Usage
unfolding add64
charge c = record {
  bytes = add64 (add64 c.wire_bytes c.decoded_bytes) ledger_entry_bytes;
  objects = c.objects;
  events = c.events;
  requests = pos 1;
}

-- `==` on the structs.
unfoldable pub cost_eqb : Cost → Cost → Bool
cost_eqb a b =
    int_eqb a.wire_bytes b.wire_bytes
    && int_eqb a.decoded_bytes b.decoded_bytes
    && int_eqb a.objects b.objects
    && int_eqb a.events b.events
    && int_eqb a.depth b.depth
    && int_eqb a.milliseconds b.milliseconds

unfoldable pub usage_eqb : Usage → Usage → Bool
usage_eqb a b =
    int_eqb a.bytes b.bytes
    && int_eqb a.objects b.objects
    && int_eqb a.events b.events
    && int_eqb a.requests b.requests
