-- ===== src/Auth/Consent.antt =====
-- internal/controller/authtxn.go: what a refused Adopt takes as its owner's consent, over the passes that
-- refuse it again.
use assayd.Base.{
  ◌≡◌, ◌∙◌, refl, Bool, true, false, not, ◌&&◌, ◌||◌, Option, none, some, List, [], ◌∷◌, String,
  ◌==◌, arith, eq_iff, eq_refl, if◌then◌else◌,
}
use assayd.Status.{AuthTransaction, AuthStatus}
use assayd.Predicates.{transaction_of}
use assayd.Auth.{is_adopt, mode_api_key, k2_consent}
use assayd.Auth.Abandon.{refused_mode_of, refusal}

-- status.auth after passes that refuse the Adopt, each with the mode that it finds in the spec.
abbrev pub refusals : Option AuthStatus → List String → Option AuthStatus
unfolding refusal
refusals auth [] = auth
refusals auth (desired ∷ later) = refusals (some (refusal auth desired)) later

abbrev pub consents_to : Option AuthTransaction → Bool
unfolding k2_consent
consents_to none = false
consents_to (some tx) = k2_consent tx mode_api_key

-- Some pass found another mode than apikey.
abbrev pub any_other_mode : List String → Bool
any_other_mode [] = false
any_other_mode (d ∷ ds) = not (d == mode_api_key) || any_other_mode ds

-- Every pass found a mode in the spec.
abbrev pub all_named : List String → Bool
all_named [] = true
all_named (d ∷ ds) = not (d == "") && all_named ds

abbrev holds_refusal : Option AuthTransaction → String → Bool
holds_refusal none m = false
holds_refusal (some tx) m = is_adopt tx.kind && tx.refused_mode == m

-- A refused Adopt, with its refusedMode.
abbrev refused_with : Option AuthStatus → String → Bool
refused_with none m = false
refused_with (some auth) m = holds_refusal auth.transaction m

-- The mode that a refusal records over one that recorded `m`.
abbrev next_mode : String → String → String
next_mode m desired = if desired == mode_api_key then m else desired

refused_mode-next :
    (slot : Option AuthTransaction) (m desired : String)
    → holds_refusal slot m ≡ true
    → (m == "") ≡ false
    → refused_mode_of slot desired ≡ next_mode m desired
refused_mode-next none m desired h n = absurd (ground arith)
refused_mode-next (some tx) m desired h n =
    ground (arith, h, n, eq_iff tx.refused_mode m, eq_iff desired mode_api_key)

refusal-refused :
    (auth : Option AuthStatus) (m desired : String)
    → refused_with auth m ≡ true
    → (m == "") ≡ false
    → refused_with (some (refusal auth desired)) (next_mode m desired) ≡ true
unfolding refusal
refusal-refused none m desired h n = absurd (ground arith)
refusal-refused (some auth) m desired h n =
    (eq_iff _ _).1 (refused_mode-next auth.transaction m desired h n)

consents-slot :
    (slot : Option AuthTransaction) (m : String)
    → holds_refusal slot m ≡ true
    → (m == "") ≡ false
    → consents_to slot ≡ not (m == mode_api_key)
unfolding k2_consent
consents-slot none m h n = absurd (ground arith)
consents-slot (some tx) m h n = ground (arith, h, n, eq_iff tx.refused_mode m)

consents-refused :
    (auth : Option AuthStatus) (m : String)
    → refused_with auth m ≡ true
    → (m == "") ≡ false
    → consents_to (transaction_of auth) ≡ not (m == mode_api_key)
unfolding k2_consent
consents-refused none m h n = absurd (ground arith)
consents-refused (some auth) m h n = consents-slot auth.transaction m h n

or_false : (b : Bool) → b ≡ (b || false)
or_false true = refl
or_false false = refl

consents-refusals :
    (auth : Option AuthStatus) (m : String) (ds : List String)
    → refused_with auth m ≡ true
    → (m == "") ≡ false
    → all_named ds ≡ true
    → consents_to (transaction_of (refusals auth ds))
      ≡ (not (m == mode_api_key) || any_other_mode ds)
unfolding refusals
consents-refusals auth m [] h n a = consents-refused auth m h n ∙ or_false (not (m == mode_api_key))
consents-refusals auth m (d ∷ ds) h n a = ground (
  arith,
  consents-refusals (some (refusal auth d)) (next_mode m d) ds (refusal-refused auth m d h n)
      (ground (arith, a, n)) (ground (arith, a)),
)

-- An Adopt that was refused by passes that found these modes in the spec, none of them empty, takes
-- apikey as its owner's consent exactly where one of them was another mode.
pub k2_consent-refusals :
    (first : String) (later : List String)
    → all_named (first ∷ later) ≡ true
    → consents_to (transaction_of (refusals none (first ∷ later))) ≡ any_other_mode (first ∷ later)
unfolding refusal
k2_consent-refusals first later a =
    consents-refusals (some (refusal none first)) first later (eq_refl first) (ground (arith, a))
      (ground (arith, a))
