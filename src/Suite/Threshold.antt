-- ===== src/Suite/Threshold.antt =====
-- What `Threshold` reads: its range, its independence of trailing zeros, and its round trip with
-- `FormatThreshold`.
use assayd.Base.{
  ℕ, zero, suc, ◌+◌, ◌*◌, ◌/◌, ◌%◌, ◌≤◌, ◌<◌, ◌≡◌, refl, true, List, [], ◌∷◌, ◌++◌, arith, length,
}
use assayd.Status.{EvalSuiteSpec, EvalMetric}
use assayd.Suite.{
  threshold, first_threshold, codes, ok, threshold_form, threshold_value, read_threshold,
  format_threshold, decimal_from,
}

value_bounds : (s : List ℕ) → threshold_form s ≡ true → threshold_value s ≤ 1000
unfolding threshold_form threshold_value
value_bounds [] h = omega arith
value_bounds (c ∷ []) h = ground arith
value_bounds (c ∷ d ∷ []) h = ground arith
value_bounds (c ∷ d ∷ a ∷ []) h = ground arith
value_bounds (c ∷ d ∷ a ∷ b ∷ []) h = ground arith
value_bounds (c ∷ d ∷ a ∷ b ∷ e ∷ []) h = ground arith
value_bounds (c ∷ d ∷ a ∷ b ∷ e ∷ f ∷ l) h = ground arith

-- A threshold that is read is above 0 and at most 1, in thousandths.
pub read_threshold_bounds : (s : List ℕ) (t : ℕ) → read_threshold s ≡ ok t → (0 < t) × (t ≤ 1000)
unfolding read_threshold
read_threshold_bounds s t h = ground (arith, value_bounds s)

decimal_digit : (q : ℕ) → q < 10 → decimal_from q q ≡ (b'0' + q) ∷ []
unfolding decimal_from
decimal_digit zero h = refl
decimal_digit (suc q) h = ground arith

-- The form and the value of "q.abc".
form_of_digits :
    (q a b e : ℕ)
    → q * 1000 + (a * 100 + b * 10 + e) ≤ 1000
    → a < 10
    → b < 10
    → e < 10
    → threshold_form ((b'0' + q) ∷ b'.' ∷ (b'0' + a) ∷ (b'0' + b) ∷ (b'0' + e) ∷ []) ≡ true
unfolding threshold_form
form_of_digits q a b e h ha hb he = ground arith

value_of_digits :
    (q a b e : ℕ)
    → threshold_value ((b'0' + q) ∷ b'.' ∷ (b'0' + a) ∷ (b'0' + b) ∷ (b'0' + e) ∷ [])
      ≡ q * 1000 + (a * 100 + b * 10 + e)
unfolding threshold_value
value_of_digits q a b e = ground arith

-- Writing a threshold and reading it back gives it.
pub read_threshold-format_threshold :
    (t : ℕ) → 0 < t → t ≤ 1000 → read_threshold (format_threshold t) ≡ ok t
unfolding read_threshold format_threshold
read_threshold-format_threshold t p h = rw (decimal_digit (t / 1000) (omega arith)) (
    ground (
      arith,
      form_of_digits (t / 1000) (t % 1000 / 100) (t % 100 / 10) (t % 10),
      value_of_digits (t / 1000) (t % 1000 / 100) (t % 100 / 10) (t % 10),
    ))

-- A zero appended to a fraction of one or two digits changes nothing.
pub read_threshold-append_zero :
    (c a : ℕ) (frac : List ℕ)
    → length (a ∷ frac) < 3
    → read_threshold (c ∷ b'.' ∷ (a ∷ frac) ++ b'0' ∷ []) ≡ read_threshold (c ∷ b'.' ∷ a ∷ frac)
unfolding read_threshold
read_threshold-append_zero c a [] h = ground arith
read_threshold-append_zero c a (b ∷ []) h = ground arith
read_threshold-append_zero c a (b ∷ e ∷ l) h = absurd (omega arith)

first_bounds : (ms : List EvalMetric) (t : ℕ) → first_threshold ms ≡ ok t → (0 < t) × (t ≤ 1000)
unfolding first_threshold
first_bounds [] t h = ground arith
first_bounds (m ∷ ms) t h = read_threshold_bounds (codes m.threshold) t h

-- Every suite's threshold lies in the same range.
pub threshold_bounds : (spec : EvalSuiteSpec) (t : ℕ) → threshold spec ≡ ok t → (0 < t) × (t ≤ 1000)
unfolding threshold
threshold_bounds spec t h = first_bounds spec.metrics t h
