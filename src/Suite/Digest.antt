-- ===== src/Suite/Digest.antt =====
-- internal/evalsuite/digest.go: the suite digest.
--
-- The canonical JSON encoder rests on encoding/json and the hash on crypto/sha256, which are not this
-- repository's code: both are parameters, and so is whether the encoder fails.
use mathlib.Core.Option
use mathlib.Core.List.{Permᴰ, Mem}
use mathlib.Core.List.Permᴰ
use assayd.Base.{ℕ, ◌≡◌, sym, ap, ◌∙◌, subst, ◌↔◌, Option, some, nat_eq, if◌then◌else◌}
use assayd.Base.Sort.{sort_by, sort_by-perm, perm-sort_by}
use assayd.Status.{EvalCase, EvalSuiteSpec}

abbrev pub default_case_timeout_seconds : ℕ
default_case_timeout_seconds = 10

abbrev pub effective_timeout : EvalSuiteSpec → ℕ
effective_timeout s =
    if nat_eq s.case_timeout_seconds 0 then default_case_timeout_seconds else s.case_timeout_seconds

-- The copy that is digested: the default timeout written, and the cases sorted by id.
unfoldable pub canonical_spec : EvalSuiteSpec → EvalSuiteSpec
canonical_spec s = record {
  cases = sort_by (λ (c : EvalCase). c.id) s.cases;
  metrics = s.metrics;
  case_timeout_seconds = effective_timeout s;
}

module _ {Bytes Hash : Type 0} (canonical_json : EvalSuiteSpec → Option Bytes)
    (sha256 : Bytes → Hash) where
  -- `Digest`; `none` is the error of the encoder.
  unfoldable pub digest : EvalSuiteSpec → Option Hash
  unfolding canonical_spec
  digest spec = Option.map sha256 (canonical_json (canonical_spec spec))

abbrev pub HasUniqueIds : EvalSuiteSpec → Type 0
HasUniqueIds s = (c d : EvalCase) → Mem c s.cases → Mem d s.cases → c.id ≡ d.id → c ≡ d

-- Two specs differ at most in the order of their cases, and in writing the default timeout out.
pub record SameSuite (s t : EvalSuiteSpec) : Type 0 where
  pub cases : Permᴰ s.cases t.cases
  pub metrics : s.metrics ≡ t.metrics
  pub timeout : effective_timeout s ≡ effective_timeout t

canonical_spec-SameSuite :
    (s t : EvalSuiteSpec) → HasUniqueIds s → SameSuite s t → canonical_spec s ≡ canonical_spec t
unfolding canonical_spec
canonical_spec-SameSuite s t u h = λ i. record {
  cases = sort_by-perm (λ (c : EvalCase). c.id) h.cases u i;
  metrics = h.metrics i;
  case_timeout_seconds = h.timeout i;
}

SameSuite-of_canonical_spec :
    (s t : EvalSuiteSpec) → canonical_spec s ≡ canonical_spec t → SameSuite s t
unfolding canonical_spec
SameSuite-of_canonical_spec s t e = record {
  cases = Permᴰ.trans (perm-sort_by (λ (c : EvalCase). c.id) s.cases) (
      subst (λ l. Permᴰ l t.cases) (sym (ap (λ (r : EvalSuiteSpec). r.cases) e))
        (Permᴰ.symm (perm-sort_by (λ (c : EvalCase). c.id) t.cases)));
  metrics = ap (λ (r : EvalSuiteSpec). r.metrics) e;
  timeout = ap (λ (r : EvalSuiteSpec). r.case_timeout_seconds) e;
}

-- What is assumed of the encoder and the hash: an encoding determines its spec, and no two encodings
-- share a hash.
pub record IsFaithful {Bytes Hash : Type 0} (canonical_json : EvalSuiteSpec → Option Bytes)
    (sha256 : Bytes → Hash) : Type 0 where
  pub encoding :
      (s t : EvalSuiteSpec) (b : Bytes)
      → canonical_json s ≡ some b
      → canonical_json t ≡ some b
      → s ≡ t
  pub no_collision : (a b : Bytes) → sha256 a ≡ sha256 b → a ≡ b

-- Two suites that can be digested have one digest exactly when they differ at most in the order of
-- their cases and in writing the default timeout out. A suite's case ids are unique.
pub digest-eq_iff :
    {Bytes Hash : Type 0} (canonical_json : EvalSuiteSpec → Option Bytes) (sha256 : Bytes → Hash)
    (s t : EvalSuiteSpec) (h k : Hash)
    → IsFaithful canonical_json sha256
    → HasUniqueIds s
    → digest canonical_json sha256 s ≡ some h
    → digest canonical_json sha256 t ≡ some k
    → (h ≡ k) ↔ SameSuite s t
unfolding digest
digest-eq_iff canonical_json sha256 s t h k faithful unique ds dt =
    let (b, eb, hb) = (Option.map-eq-some_iff _ _).0 ds in
    let (c, ec, kc) = (Option.map-eq-some_iff _ _).0 dt in
    (
      λ e. SameSuite-of_canonical_spec s t (
          faithful.encoding (canonical_spec s) (canonical_spec t) b eb
            (ec ∙ ap some (sym (faithful.no_collision b c (hb ∙ e ∙ sym kc))))),
      λ same.
          let e : some h ≡ some k =
            sym ds
            ∙ ap (λ u. Option.map sha256 (canonical_json u))
                (canonical_spec-SameSuite s t unique same)
            ∙ dt in
          cc,
    )
