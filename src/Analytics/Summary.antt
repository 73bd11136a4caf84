-- ===== src/Analytics/Summary.antt =====
-- QuerySummary, over the answers of ClickHouse to its two queries. `float64` is an argument: its
-- zero, the tests math.IsNaN and math.IsInf, and the quotient of two counts.
use gotra.Prelude.{
  ℕ, Bool, true, false, ◌||◌, List, [], ◌∷◌, if◌then◌else◌, ltb, ◌≡◌, arith, Bool-cases, inl, inr,
  ◌⊎◌,
}
use gotra.Errors.{Outcome, ok}
use gotra.Errors.Sequence.{◌>>=◌, sequence_ok}
use gotra.Analytics.{Store}

-- SeriesPoint
pub record SeriesPoint : Type 0 where
  pub bucket : ℕ
  pub requests : ℕ
  pub errors : ℕ

-- Summary
pub record Summary (Float : Type 0) : Type 0 where
  pub enabled : Bool
  pub requests : ℕ
  pub errors : ℕ
  pub error_rate : Float
  pub avg_latency : Float
  pub p95_latency : Float
  pub series : List SeriesPoint

-- The first query's row.
pub record Totals (Float : Type 0) : Type 0 where
  pub count : ℕ
  pub count_if : ℕ
  pub avg : Float
  pub quantile : Float

-- The loop over the rows of the second query, where a Scan may fail.
unfoldable pub scan_series : List (Outcome SeriesPoint) → Outcome (List SeriesPoint)
scan_series [] = ok []
scan_series (r ∷ rows) = do p ← r; ps ← scan_series rows; ok (p ∷ ps)

module _ {Float : Type 0} (zero_float : Float) (is_nan is_inf : Float → Bool)
    (quotient : ℕ → ℕ → Float) where
  -- The replacement of a value that JSON cannot encode.
  unfoldable pub finite_or_zero : Float → Float
  finite_or_zero x = if is_nan x || is_inf x then zero_float else x

  unfoldable pub error_rate_of : ℕ → ℕ → Float
  error_rate_of errors requests = if ltb 0 requests then quotient errors requests else zero_float

  unfoldable pub summarize : Totals Float → List SeriesPoint → Summary Float
  unfolding finite_or_zero error_rate_of
  summarize t series = record {
    enabled = true;
    requests = t.count;
    errors = t.count_if;
    error_rate = error_rate_of t.count_if t.count;
    avg_latency = finite_or_zero t.avg;
    p95_latency = finite_or_zero t.quantile;
    series = series;
  }

  unfoldable pub disabled_summary : Summary Float
  disabled_summary = record {
    enabled = false;
    requests = 0;
    errors = 0;
    error_rate = zero_float;
    avg_latency = zero_float;
    p95_latency = zero_float;
    series = [];
  }

  -- QuerySummary on a connected store.
  unfoldable pub read_summary :
      Outcome (Totals Float) → Outcome (List (Outcome SeriesPoint)) → Outcome (Summary Float)
  unfolding summarize scan_series
  read_summary totals rows = do
    t ← totals
    ps ← rows
    series ← scan_series ps
    ok (summarize t series)

  -- QuerySummary, with the answers to QueryRow and Query.
  unfoldable pub query_summary :
      Store
      → Outcome (Totals Float)
      → Outcome (List (Outcome SeriesPoint))
      → Outcome (Summary Float)
  unfolding read_summary disabled_summary
  query_summary s totals rows = if s.enabled then read_summary totals rows else ok disabled_summary

  -- Neither NaN nor infinite.
  abbrev pub IsFinite : Float → Type 0
  IsFinite x = (is_nan x || is_inf x) ≡ false

  finite_or_zero-IsFinite : (x : Float) → IsFinite zero_float → IsFinite (finite_or_zero x)
  unfolding finite_or_zero
  finite_or_zero-IsFinite x z = ground arith

  error_rate_of-IsFinite :
      (a b : ℕ)
      → IsFinite zero_float
      → ((a b : ℕ) → ltb 0 b ≡ true → IsFinite (quotient a b))
      → IsFinite (error_rate_of a b)
  unfolding error_rate_of
  error_rate_of-IsFinite a b z q = elim (Bool-cases (ltb 0 b)) [
    | inl e ↦ rw e (q a b e)
    | inr e ↦ rw e z
  ]

  query_summary_cases :
      (s : Store) (totals : Outcome (Totals Float)) (rows : Outcome (List (Outcome SeriesPoint)))
      {r : Summary Float}
      → query_summary s totals rows ≡ ok r
      → (r ≡ disabled_summary)
        ⊎ ((t : Totals Float) × (ps : List SeriesPoint) × (r ≡ summarize t ps))
  unfolding query_summary read_summary
  query_summary_cases s totals rows h = elim (Bool-cases s.enabled) [
    | inr e ↦ inl (ground arith)
    | inl e ↦
        let (t, _, g) = sequence_ok totals _ (rw e at h) in
        let (ps, _, k) = sequence_ok rows _ g in
        let (series, _, l) = sequence_ok (scan_series ps) _ k in inr (t, series, ground arith)
  ]

  -- Where float64 zero and the quotient by a positive count are neither NaN nor infinite, every
  -- summary that QuerySummary returns can be encoded as JSON: none of its three floating-point
  -- fields is NaN or infinite.
  pub query_summary-encodable :
      (s : Store) (totals : Outcome (Totals Float)) (rows : Outcome (List (Outcome SeriesPoint)))
      {r : Summary Float}
      → IsFinite zero_float
      → ((a b : ℕ) → ltb 0 b ≡ true → IsFinite (quotient a b))
      → query_summary s totals rows ≡ ok r
      → IsFinite r.error_rate × IsFinite r.avg_latency × IsFinite r.p95_latency
  unfolding summarize disabled_summary
  query_summary-encodable s totals rows z q h = elim (query_summary_cases s totals rows h) [
    | inl e ↦ rw e (z, z, z)
    | inr (t, ps, e) ↦ rw e (
      error_rate_of-IsFinite t.count_if t.count z q,
      finite_or_zero-IsFinite t.avg z,
      finite_or_zero-IsFinite t.quantile z,
    )
  ]
