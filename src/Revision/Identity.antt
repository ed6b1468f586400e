-- ===== src/Revision/Identity.antt =====
-- When a revision has a digest, and what of its sources the digest covers.
use Prim.Native.String.{◌++◌}
use text.Mathlib.TextLemmas.{append_cancel_left}
use mathlib.Core.Option
use mathlib.Core.Option.{none-ne-some, some-ne-none}
use assayd.Revision.Content.{
  Content, content_digest, HasUniqueKeys, SameContent, IsFaithfulHash, resolve,
}
use assayd.Revision.Content.Bytes.{content_digest-eq_iff}
use assayd.Base.{
  ℕ, none, some, All-map, ◌≡◌, refl, ap, ◌↔◌, true, false, Option, List, [], ◌∷◌, String, arith,
  All, is_some,
}
use assayd.Revision.{
  Runtime, SourceRef, to_text, env_sources, has_unknown_env_arms, unresolved, missing_sources,
  no_refs, source_digests, digest, or_empty,
}
use assayd.Revision.Sources.{references, All-env_sources}

no_unresolved :
    (resolved : SourceRef → Option String) (rs : List SourceRef)
    → (no_refs (unresolved resolved rs) ≡ true) ↔ All (λ r. is_some (resolved r) ≡ true) rs
unfolding unresolved
no_unresolved resolved [] = (λ h. tt, λ h. refl)
no_unresolved resolved (r ∷ rs) = (
  λ h. (ground arith, (no_unresolved resolved rs).0 (ground arith)),
  λ h. ground (arith, (no_unresolved resolved rs).1 h.1, h.0),
)

-- A revision has a digest exactly when every env source is of a kind that the operator knows and every
-- ConfigMap and Secret that the runtime refers to is resolved.
pub digest-is_some_iff :
    {Behaviour Bytes Hash : Type 0} (project : Option Runtime → Behaviour)
    (marshal : Behaviour → List String → Bytes) (sha256 : Bytes → Hash) (rt : Option Runtime)
    (resolved : SourceRef → Option String)
    → (is_some (digest project marshal sha256 rt resolved) ≡ true)
      ↔ ((has_unknown_env_arms rt ≡ false) × All (λ r. is_some (resolved r) ≡ true) (references rt))
unfolding digest missing_sources
digest-is_some_iff project marshal sha256 rt resolved =
    let listed = no_unresolved resolved (env_sources rt) in
    let covered = All-env_sources (λ r. is_some (resolved r) ≡ true) rt in
    (
      λ h. (ground arith, covered.0 (listed.0 (ground arith))),
      λ h. ground (arith, listed.1 (covered.1 h.1), h.0),
    )

-- Two digest lists of one list of sources agree exactly when each source's content digest does.
source_digests-eq_iff :
    (old new : SourceRef → Option String) (rs : List SourceRef)
    → All (λ r. is_some (old r) ≡ true) rs
    → All (λ r. is_some (new r) ≡ true) rs
    → (source_digests old rs ≡ source_digests new rs) ↔ All (λ r. old r ≡ new r) rs
unfolding source_digests
source_digests-eq_iff old new [] a b = (λ h. tt, λ h. refl)
source_digests-eq_iff old new (r ∷ rs) a b =
    let rest = source_digests-eq_iff old new rs a.1 b.1 in
    (
      λ h.
          let heads : (to_text r ++ "=" ++ or_empty (old r))
              ≡ (to_text r ++ "=" ++ or_empty (new r)) =
            cc in
          let tails : source_digests old rs ≡ source_digests new rs = cc in
          let same : or_empty (old r) ≡ or_empty (new r) =
            append_cancel_left "=" _ _ (append_cancel_left (to_text r) _ _ heads) in
          (ground (arith, same, a.0, b.0), rest.0 tails),
      λ h. (λ i. (to_text r ++ "=" ++ or_empty (h.0 i)) ∷ rest.1 h.1 i),
    )

-- The pairs for one runtime whose references are resolved agree just where each reference's content digest
-- does.
source_digests-resolved :
    (rt : Option Runtime) (old new : SourceRef → Option String)
    → missing_sources rt old ≡ []
    → missing_sources rt new ≡ []
    → (source_digests old (env_sources rt) ≡ source_digests new (env_sources rt))
      ↔ All (λ r. old r ≡ new r) (references rt)
unfolding missing_sources
source_digests-resolved rt old new a b =
    let resolved_in = λ (f : SourceRef → Option String) (q : unresolved f (env_sources rt) ≡ []).
      (no_unresolved f (env_sources rt)).0 (ap no_refs q) in
    let lists =
      source_digests-eq_iff old new (env_sources rt) (resolved_in old a) (resolved_in new b) in
    let covered = All-env_sources (λ r. old r ≡ new r) rt in
    (λ e. covered.0 (lists.0 e), λ h. lists.1 (covered.1 h))

-- Both sources are there with the same entries, or neither is.
unfoldable pub SameSource : Option Content → Option Content → Type 0
SameSource (some c) (some d) = SameContent c d
SameSource none none = Unit
SameSource _ _ = ⊥

abbrev pub HaveUniqueKeys : (SourceRef → Option Content) → Type 0
HaveUniqueKeys contents = (r : SourceRef) (c : Content) → contents r ≡ some c → HasUniqueKeys c

digest-SameSource :
    (utf8 : String → List ℕ) (sha256_hex : List ℕ → String) (x y : Option Content)
    → IsFaithfulHash utf8 sha256_hex
    → ((c : Content) → x ≡ some c → HasUniqueKeys c)
    → (Option.map (content_digest utf8 sha256_hex) x
        ≡ Option.map (content_digest utf8 sha256_hex) y)
      ↔ SameSource x y
unfolding SameSource
digest-SameSource utf8 sha256_hex none none faithful unique = (λ e. tt, λ s. refl)
digest-SameSource utf8 sha256_hex none (some d) faithful unique =
    (λ e. none-ne-some _ e, λ s. absurd s)
digest-SameSource utf8 sha256_hex (some c) none faithful unique =
    (λ e. some-ne-none _ e, λ s. absurd s)
digest-SameSource utf8 sha256_hex (some c) (some d) faithful unique =
    let same = content_digest-eq_iff utf8 sha256_hex c d faithful (unique c refl) in
    (λ e. same.0 (ap or_empty e), λ s. ap some (same.1 s))

-- The pairs that the revision digest covers, beside the projection, agree for one runtime just where every
-- ConfigMap and Secret that it refers to has the same entries, in `data` and in `binaryData`, in any order
-- of its maps. Each of them is resolved, a key of a map has one entry, no two texts have the same bytes, and
-- the hash of a source's content has no collision.
pub source_digests-references :
    (utf8 : String → List ℕ) (sha256_hex : List ℕ → String) (rt : Option Runtime)
    (old new : SourceRef → Option Content)
    → IsFaithfulHash utf8 sha256_hex
    → HaveUniqueKeys old
    → missing_sources rt (resolve utf8 sha256_hex old) ≡ []
    → missing_sources rt (resolve utf8 sha256_hex new) ≡ []
    → (source_digests (resolve utf8 sha256_hex old) (env_sources rt)
        ≡ source_digests (resolve utf8 sha256_hex new) (env_sources rt))
      ↔ All (λ r. SameSource (old r) (new r)) (references rt)
source_digests-references utf8 sha256_hex rt old new faithful unique a b =
    let digests =
      source_digests-resolved rt (resolve utf8 sha256_hex old) (resolve utf8 sha256_hex new) a b in
    let same =
      λ (r : SourceRef). digest-SameSource utf8 sha256_hex (old r) (new r) faithful (unique r) in
    (
      λ e. All-map (references rt) (λ r. (same r).0) (digests.0 e),
      λ h. digests.1 (All-map (references rt) (λ r. (same r).1) h),
    )
