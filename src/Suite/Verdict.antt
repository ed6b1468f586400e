-- ===== src/Suite/Verdict.antt =====
-- The verdict rule, as exact arithmetic.
use assayd.Base.{ℕ, ◌*◌, ◌≤◌, ◌<◌, ◌≡◌, ◌↔◌, ◌^◌, true, false, not, ◌&&◌, arith, [], refl}
use assayd.Status.{EvalSuiteSpec}
use assayd.Suite.{passes, threshold, ok}
use assayd.Suite.Threshold.{threshold_bounds}

-- Within `int64` the rule is the comparison of the exact products.
pub passes_exact :
    (passed total th : ℕ)
    → passed * 1000 < 2 ^ 63
    → th * total < 2 ^ 63
    → total < 2 ^ 63
    → (passes passed total th ≡ true) ↔ ((0 < total) × (th * total ≤ passed * 1000))
unfolding passes
passes_exact passed total th h k l = ground arith

-- The bounds that admission's 20 cases give.
small_passes :
    (k n th : ℕ)
    → k ≤ 20
    → n ≤ 20
    → th ≤ 1000
    → (passes k n th ≡ true) ↔ ((0 < n) × (th * n ≤ k * 1000))
small_passes k n th h l b = passes_exact k n th (omega arith) (grind arith) (omega arith)

-- With a threshold that can be read, over at most 20 cases: a run whose every case passed passes, one
-- with no passed case does not, and more passed cases never turn a pass into a failure.
pub passes_ends :
    (spec : EvalSuiteSpec) (th n j k : ℕ)
    → threshold spec ≡ ok th
    → 0 < n
    → n ≤ 20
    → j ≤ k
    → k ≤ n
    → (passes n n th ≡ true)
      × (passes 0 n th ≡ false)
      × ((passes j n th && not (passes k n th)) ≡ false)
passes_ends spec th n j k h p l jk kn =
    let b = threshold_bounds spec th h in
    let all : th * n ≤ n * 1000 = grind arith in
    let some_needed : 0 < th * n = grind arith in
    (
      (small_passes n n th l l b.1).1 (p, all),
      ground (arith, small_passes 0 n th),
      ground (arith, small_passes j n th, small_passes k n th),
    )

-- Without a metric every case must pass.
pub passes_of_no_metric :
    (spec : EvalSuiteSpec) (k n : ℕ)
    → spec.metrics ≡ []
    → k ≤ n
    → 0 < n
    → n ≤ 20
    → (th : ℕ) × (threshold spec ≡ ok th) × ((passes k n th ≡ true) ↔ (k ≡ n))
unfolding threshold
passes_of_no_metric spec k n e h p l = (1000, rw e refl, small_passes_all)
  where
    small_passes_all : (passes k n 1000 ≡ true) ↔ (k ≡ n)
    small_passes_all = ground (arith, small_passes k n 1000)
