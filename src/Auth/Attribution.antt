-- ===== src/Auth/Attribution.antt =====
-- internal/controller/authtxn.go: which revision an answer through the serving route is credited to.
use assayd.Base.{
  ℕ, Bool, true, false, not, ◌&&◌, ◌||◌, Option, none, some, List, [], ◌∷◌, String, ◌==◌,
  if◌then◌else◌, nat_eq,
}
use assayd.Status.{CardStatus}
use assayd.Auth.{workload_name, Route, single_backend}

-- The loops of `beforeRevisionFor` and `cardAttributes`: the first card of the revision of this name.
unfoldable pub backend_card : String → List CardStatus → String → Option CardStatus
backend_card agent [] backend = none
backend_card agent (c ∷ cs) backend =
    let rest = backend_card agent cs backend in
    if not (c.digest == "") && workload_name agent c.revision == backend then some c else rest

abbrev revision_of : Option CardStatus → String → String
revision_of none digest = ""
revision_of (some c) digest = if c.digest == digest then c.revision else ""

abbrev is_200 : Option ℕ → Bool
is_200 none = false
is_200 (some code) = nat_eq code 200

-- `beforeRevisionFor`, for an answer's code and the digest of the card that it carried.
unfoldable pub before_revision_for : String → List CardStatus → Route → Option ℕ → String → String
unfolding backend_card
before_revision_for agent cards rt code card_digest =
    if not (is_200 code) || (card_digest == "" || single_backend rt == "")
    then ""
    else revision_of (backend_card agent cards (single_backend rt)) card_digest

abbrev is_card : Option CardStatus → Bool
is_card none = false
is_card (some _) = true

-- `cardAttributes`, whether it does.
unfoldable pub card_attributes : String → List CardStatus → Route → Bool
unfolding backend_card
card_attributes agent cards rt =
    if single_backend rt == ""
    then false
    else is_card (backend_card agent cards (single_backend rt))
