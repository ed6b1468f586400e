-- ===== src/Examples/Contents.antt =====
-- The contents of a revision's sources at concrete inputs.
use Prim.Native.Char.{code, IsScalar}
use mathlib.Core.HLevel.{prop→set}
use mathlib.Core.List.{Mem, Memᴰ, nil≢cons, head-eq_of_cons-eq, tail-eq_of_cons-eq}
use text.Mathlib.TextEquality.{IsScalar-prop, Char-path}
use assayd.Base.{
  ℕ, zero, suc, ◌≡◌, refl, sym, ap, ◌∙◌, subst, ◌↔◌, Bool-cases, inl, inr, Option, some, List, [],
  ◌∷◌, String, All, arith, ◌==◌, if◌then◌else◌,
}
use assayd.Revision.{
  SourceRef, env_sources, source_digests, missing_sources, to_text, add_value_from,
}
use assayd.Revision.Content.{Content, Datum, BinaryDatum, HasUniqueKeys, IsFaithfulHash, resolve}
use assayd.Revision.Sources.{references}
use assayd.Revision.Identity.{SameSource, HaveUniqueKeys, source_digests-references}
use assayd.Examples.Revisions.{runtime}

-- The numbers of a text's characters stand for its bytes.
abbrev char_codes : String → List ℕ
char_codes String.[] = []
char_codes (String.◌∷◌ c s) = code c ∷ char_codes s

char_codes-injective : (s t : String) → char_codes s ≡ char_codes t → s ≡ t
char_codes-injective String.[] String.[] e = refl
char_codes-injective String.[] (String.◌∷◌ d t) e = absurd (nil≢cons e)
char_codes-injective (String.◌∷◌ c s) String.[] e = absurd (nil≢cons (sym e))
char_codes-injective (String.◌∷◌ c s) (String.◌∷◌ d t) e =
    let first = Char-path c d (head-eq_of_cons-eq e) in
    let rest = char_codes-injective s t (tail-eq_of_cons-eq e) in λ i. String.◌∷◌ (first i) (rest i)

-- A text of strokes stands for the hash of bytes: a number is so many strokes, before a comma.
abbrev strokes : ℕ → String → String
strokes zero s = String.◌∷◌ "," s
strokes (suc n) s = String.◌∷◌ "|" (strokes n s)

abbrev tally : List ℕ → String
tally [] = String.[]
tally (n ∷ ns) = strokes n (tally ns)

abbrev first_code : String → ℕ
first_code String.[] = 0
first_code (String.◌∷◌ c s) = code c

abbrev after_first : String → String
after_first String.[] = String.[]
after_first (String.◌∷◌ c s) = s

strokes-injective : (m n : ℕ) (s t : String) → strokes m s ≡ strokes n t → (m ≡ n) × (s ≡ t)
strokes-injective zero zero s t e = (refl, ap after_first e)
strokes-injective zero (suc n) s t e = absurd (omega (arith, ap first_code e))
strokes-injective (suc m) zero s t e = absurd (omega (arith, ap first_code e))
strokes-injective (suc m) (suc n) s t e =
    let (same, rest) = strokes-injective m n s t (ap after_first e) in (ap suc same, rest)

tally_cons : (n : ℕ) (ns : List ℕ) → String.[] ≡ tally (n ∷ ns) → ⊥
tally_cons zero ns e = omega (arith, ap first_code e)
tally_cons (suc n) ns e = omega (arith, ap first_code e)

tally-injective : (a b : List ℕ) → tally a ≡ tally b → a ≡ b
tally-injective [] [] e = refl
tally-injective [] (n ∷ ns) e = absurd (tally_cons n ns e)
tally-injective (m ∷ ms) [] e = absurd (tally_cons m ms (sym e))
tally-injective (m ∷ ms) (n ∷ ns) e =
    let (same, rest) = strokes-injective m n (tally ms) (tally ns) e in
    let tails = tally-injective ms ns rest in λ i. same i ∷ tails i

tally-IsFaithfulHash : IsFaithfulHash char_codes tally
tally-IsFaithfulHash = record {
  utf8_injective = char_codes-injective;
  no_collision = tally-injective;
}

-- The ConfigMap has one text, and the Secret one key, which is rotated.
abbrev prompt_content : Content
prompt_content = record {
  data_entries = record { key = "prompt"; value = "Greet." } ∷ [];
  binary_entries = [];
}

abbrev token_content : List ℕ → Content
token_content bytes = record {
  data_entries = [];
  binary_entries = record { key = "token"; value = bytes } ∷ [];
}

abbrev contents : List ℕ → SourceRef → Option Content
contents bytes r = if r.name == "prompt" then some prompt_content else some (token_content bytes)

IsScalar-IsSet : (n : ℕ) → IsSet (IsScalar n)
IsScalar-IsSet n = prop→set (IsScalar-prop n)

Datum-IsSet : IsSet Datum
Datum-IsSet = hlevel (IsScalar-IsSet)

BinaryDatum-IsSet : IsSet BinaryDatum
BinaryDatum-IsSet = hlevel (IsScalar-IsSet)

in_single : {A : Type 0} (x d e : A) → Memᴰ d (x ∷ []) → Memᴰ e (x ∷ []) → d ≡ e
in_single x d e (Memᴰ.head p) (Memᴰ.head q) = p ∙ sym q
in_single x d e (Memᴰ.tail m) n = elim m [ ]
in_single x d e (Memᴰ.head p) (Memᴰ.tail n) = elim n [ ]

not_in_nil : {A : Type 0} (d : A) → Memᴰ d [] → ⊥
not_in_nil d m = elim m [ ]

single : {A : Type 0} → IsSet A → (x d e : A) → Mem d (x ∷ []) → Mem e (x ∷ []) → d ≡ e
single set x d e m n = ∥∥₁_rec (set d e) (λ m'. ∥∥₁_rec (set d e) (λ n'. in_single x d e m' n') n) m

empty : {A : Type 0} → IsSet A → (d e : A) → Mem d [] → d ≡ e
empty set d e m = ∥∥₁_rec (set d e) (λ m'. absurd (not_in_nil d m')) m

prompt-HasUniqueKeys : HasUniqueKeys prompt_content
prompt-HasUniqueKeys = record {
  data_entry =
      λ d e m n q. single Datum-IsSet (record { key = "prompt"; value = "Greet." }) d e m n;
  binary_entry = λ d e m n q. empty BinaryDatum-IsSet d e m;
}

token-HasUniqueKeys : (bytes : List ℕ) → HasUniqueKeys (token_content bytes)
token-HasUniqueKeys bytes = record {
  data_entry = λ d e m n q. empty Datum-IsSet d e m;
  binary_entry =
      λ d e m n q. single BinaryDatum-IsSet (record { key = "token"; value = bytes }) d e m n;
}

some_inj : {c d : Content} → some c ≡ some d → c ≡ d
some_inj e = cc

contents-HaveUniqueKeys : (bytes : List ℕ) → HaveUniqueKeys (contents bytes)
contents-HaveUniqueKeys bytes r c = elim (Bool-cases (r.name == "prompt")) [
  | inl e ↦ rw e (λ q. subst HasUniqueKeys (some_inj q) prompt-HasUniqueKeys)
  | inr e ↦ rw e (λ q. subst HasUniqueKeys (some_inj q) (token-HasUniqueKeys bytes))
]

contents_resolved :
    (bytes : List ℕ) → missing_sources runtime (resolve char_codes tally (contents bytes)) ≡ []
unfolding missing_sources env_sources to_text add_value_from
contents_resolved bytes = refl

source_digests-references_example :
    (source_digests (resolve char_codes tally (contents (b'1' ∷ []))) (env_sources runtime)
      ≡ source_digests (resolve char_codes tally (contents (b'2' ∷ []))) (env_sources runtime))
    ↔ All
        (λ (r : SourceRef). SameSource (contents (b'1' ∷ []) r) (contents (b'2' ∷ []) r))
        (references runtime)
source_digests-references_example =
    source_digests-references char_codes tally runtime (contents (b'1' ∷ [])) (contents (b'2' ∷ []))
      tally-IsFaithfulHash (contents-HaveUniqueKeys (b'1' ∷ [])) (contents_resolved (b'1' ∷ []))
      (contents_resolved (b'2' ∷ []))
