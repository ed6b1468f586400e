-- ===== src/Suite.antt =====
-- internal/evalsuite/threshold.go: the threshold of a suite, in thousandths, and the verdict rule.
--
-- `Threshold` reads a Go string by its bytes. Its form admits ASCII alone, so the model reads the code
-- points of the text. The error's wording is not modelled: the error keeps which rule refused.
pub mod Threshold
pub mod Verdict
pub mod Digest
use assayd.Base.{
  ℕ, zero, suc, ◌+◌, ◌-◌, ◌*◌, ◌/◌, ◌%◌, ◌^◌, Bool, true, false, ◌&&◌, ◌||◌, List, [], ◌∷◌, ◌++◌,
  String, Char, code, ltb, leb, nat_eq, length, if◌then◌else◌,
}
use assayd.Status.{EvalMetric, EvalSuiteSpec}

abbrev pub codes : String → List ℕ
codes String.[] = []
codes (String.◌∷◌ c s) = code c ∷ codes s

pub data ThresholdError : Type 0 where
  not_a_decimal zero_threshold : ThresholdError

pub data ThresholdResult : Type 0 where
  ok : ℕ → ThresholdResult
  err : ThresholdError → ThresholdResult

abbrev pub is_digit : ℕ → Bool
is_digit c = leb b'0' c && leb c b'9'

-- `[0-9]{1,3}` or `0{1,3}`, by the class of a character.
abbrev pub one_to_three : (ℕ → Bool) → List ℕ → Bool
one_to_three ok_char (a ∷ []) = ok_char a
one_to_three ok_char (a ∷ b ∷ []) = ok_char a && ok_char b
one_to_three ok_char (a ∷ b ∷ c ∷ []) = ok_char a && (ok_char b && ok_char c)
one_to_three ok_char _ = false

-- The regular expression `^(0([.][0-9]{1,3})?|1([.]0{1,3})?)$`.
unfoldable pub threshold_form : List ℕ → Bool
threshold_form [] = false
threshold_form (c ∷ []) = nat_eq c b'0' || nat_eq c b'1'
threshold_form (c ∷ d ∷ frac) =
    nat_eq d b'.'
    && (nat_eq c b'0' && one_to_three is_digit frac
        || nat_eq c b'1' && one_to_three (λ x. nat_eq x b'0') frac)

-- The first three of the fractional digits with "00" appended, as a number.
abbrev pub thousandths : List ℕ → ℕ
thousandths (a ∷ b ∷ c ∷ _) = (a - b'0') * 100 + (b - b'0') * 10 + (c - b'0')
thousandths _ = 0

-- The value that is read from a text of the right form: `th` of `Threshold`.
unfoldable pub threshold_value : List ℕ → ℕ
threshold_value [] = 0
threshold_value (c ∷ []) = (c - b'0') * 1000
threshold_value (c ∷ d ∷ frac) =
    if ltb 2 (length (c ∷ d ∷ frac))
    then (c - b'0') * 1000 + thousandths (frac ++ b'0' ∷ b'0' ∷ [])
    else (c - b'0') * 1000

unfoldable pub read_threshold : List ℕ → ThresholdResult
unfolding threshold_form threshold_value
read_threshold s =
    if threshold_form s
    then if nat_eq (threshold_value s) 0 then err zero_threshold else ok (threshold_value s)
    else err not_a_decimal

unfoldable pub first_threshold : List EvalMetric → ThresholdResult
unfolding read_threshold
first_threshold [] = ok 1000
first_threshold (m ∷ _) = read_threshold (codes m.threshold)

-- `Threshold`: a suite with no metric has threshold "1".
unfoldable pub threshold : EvalSuiteSpec → ThresholdResult
unfolding first_threshold
threshold spec = first_threshold spec.metrics

-- An `int64` as its bits, and `≥` on two of them, by their signs.
abbrev pub int64 : ℕ → ℕ
int64 x = x % 2 ^ 64

abbrev pub int64_ge : ℕ → ℕ → Bool
int64_ge a b = leb ((b + 2 ^ 63) % 2 ^ 64) ((a + 2 ^ 63) % 2 ^ 64)

-- `Passes`: passed × 1000 ≥ threshold × total, in `int64`. A run with no cases does not pass.
unfoldable pub passes : ℕ → ℕ → ℕ → Bool
passes passed total threshold =
    if nat_eq total 0
    then false
    else int64_ge (int64 (int64 passed * 1000)) (int64 (threshold * int64 total))

-- The decimal digits of a number, as `%d` writes them; `fuel` is the number itself.
unfoldable pub decimal_from : ℕ → ℕ → List ℕ
decimal_from zero n = (b'0' + n % 10) ∷ []
decimal_from (suc fuel) n =
    let rest = decimal_from fuel (n / 10) in
    if ltb n 10 then (b'0' + n) ∷ [] else rest ++ (b'0' + n % 10) ∷ []

-- `FormatThreshold`: `%d.%03d` of the thousandths.
unfoldable pub format_threshold : ℕ → List ℕ
unfolding decimal_from
format_threshold t =
    decimal_from (t / 1000) (t / 1000)
    ++ b'.' ∷ (b'0' + t % 1000 / 100) ∷ (b'0' + t % 100 / 10) ∷ (b'0' + t % 10) ∷ []
