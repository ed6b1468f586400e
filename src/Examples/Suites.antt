-- ===== src/Examples/Suites.antt =====
-- internal/evalsuite at concrete inputs.
use Prim.Native.Char.{IsScalar}
use mathlib.Core.HLevel.{prop→set}
use mathlib.Core.List.{Memᴰ}
use text.Mathlib.TextEquality.{IsScalar-prop}
use assayd.Base.{
  ◌≢◌, eq_iff, sym, ap, ◌∙◌, ◌≡◌, ◌↔◌, ◌&&◌, refl, true, false, not, Option, some, [], ◌∷◌, String,
  arith, ℕ,
}
use assayd.Status.{EvalSuiteSpec, EvalCase}
use assayd.Suite.{passes, threshold, ok, read_threshold, format_threshold}
use assayd.Suite.Threshold.{read_threshold-format_threshold}
use assayd.Suite.Verdict.{passes_ends}
use assayd.Suite.Digest.{digest, canonical_spec, digest-eq_iff, SameSuite, IsFaithful, HasUniqueIds}
use assayd.Fixtures.{greetings, case_a, case_b}

threshold_of_greetings : threshold greetings.spec ≡ ok 500
unfolding threshold
threshold_of_greetings = refl

format_threshold_example : read_threshold (format_threshold 625) ≡ ok 625
format_threshold_example = read_threshold-format_threshold 625 (omega arith) (omega arith)

passes_ends_example :
    (passes 2 2 500 ≡ true)
    × (passes 0 2 500 ≡ false)
    × ((passes 1 2 500 && not (passes 2 2 500)) ≡ false)
passes_ends_example =
    passes_ends greetings.spec 500 2 1 2 threshold_of_greetings (omega arith) (omega arith)
      (omega arith) (omega arith)

abbrev no_metric : EvalSuiteSpec
no_metric = record greetings.spec { metrics = [] }

abbrev encode : EvalSuiteSpec → Option EvalSuiteSpec
encode s = some s

abbrev same_bytes : EvalSuiteSpec → EvalSuiteSpec
same_bytes s = s

some_inj : {s t : EvalSuiteSpec} → some s ≡ some t → s ≡ t
some_inj e = cc

encode-IsFaithful : IsFaithful encode same_bytes
encode-IsFaithful = record {
  encoding = λ s t b p q. some_inj (p ∙ sym q);
  no_collision = λ a b e. e;
}

-- The suite with its cases in the other order and the default timeout written out.
abbrev reordered : EvalSuiteSpec
reordered = record greetings.spec { cases = case_a ∷ case_b ∷ []; case_timeout_seconds = 10 }

abbrev id_of : EvalCase → String
id_of c = c.id

a_ne_b : ◌≢◌ {A = String} "a" "b"
a_ne_b = λ e. ground (arith, eq_iff "a" "b")

IsScalar-IsSet : (n : ℕ) → IsSet (IsScalar n)
IsScalar-IsSet n = prop→set (IsScalar-prop n)

EvalCase-IsSet : IsSet EvalCase
EvalCase-IsSet = hlevel (IsScalar-IsSet)

same_case :
    (c d : EvalCase)
    → Memᴰ c (case_b ∷ case_a ∷ [])
    → Memᴰ d (case_b ∷ case_a ∷ [])
    → c.id ≡ d.id
    → c ≡ d
same_case c d (Memᴰ.head p) (Memᴰ.head q) e = p ∙ sym q
same_case c d (Memᴰ.head p) (Memᴰ.tail (Memᴰ.head q)) e =
    absurd (ground (arith, a_ne_b, ap id_of p, ap id_of q))
same_case c d (Memᴰ.head p) (Memᴰ.tail (Memᴰ.tail m)) e = elim m [ ]
same_case c d (Memᴰ.tail (Memᴰ.head p)) (Memᴰ.tail (Memᴰ.tail m)) e = elim m [ ]
same_case c d (Memᴰ.tail (Memᴰ.tail m)) n e = elim m [ ]
same_case c d (Memᴰ.tail (Memᴰ.head p)) (Memᴰ.head q) e =
    absurd (ground (arith, a_ne_b, ap id_of p, ap id_of q))
same_case c d (Memᴰ.tail (Memᴰ.head p)) (Memᴰ.tail (Memᴰ.head q)) e = p ∙ sym q

greetings-HasUniqueIds : HasUniqueIds greetings.spec
greetings-HasUniqueIds c d m n e =
    ∥∥₁_rec (EvalCase-IsSet c d)
      (λ m'. ∥∥₁_rec (EvalCase-IsSet c d) (λ n'. same_case c d m' n' e) n) m

digest_of : digest encode same_bytes greetings.spec ≡ some (canonical_spec greetings.spec)
unfolding digest
digest_of = refl

digest_of_reordered : digest encode same_bytes reordered ≡ some (canonical_spec reordered)
unfolding digest
digest_of_reordered = refl

digest_example :
    (canonical_spec greetings.spec ≡ canonical_spec reordered) ↔ SameSuite greetings.spec reordered
digest_example =
    digest-eq_iff encode same_bytes greetings.spec reordered (canonical_spec greetings.spec)
      (canonical_spec reordered) encode-IsFaithful greetings-HasUniqueIds digest_of
      digest_of_reordered
