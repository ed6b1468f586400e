-- ===== src/Cards.antt =====
-- internal/controller/card.go: the entries of status.cards, and when a card is read again. A fetch itself is
-- an input, and so is the set of revisions that are kept.
pub mod Entries
use assayd.Base.{
  ℕ, zero, suc, ◌+◌, ◌*◌, Bool, true, false, not, Option, none, some, List, [], ◌∷◌, String, ◌==◌,
  if◌then◌else◌, leb, nat_eq, length,
}
use assayd.Status.{CardStatus, AgentStatus}
use assayd.Predicates.{card_entry}

abbrev pub second : ℕ
second = 1000000000

abbrev pub card_retry_interval : ℕ
card_retry_interval = 15 * second

abbrev pub card_drift_interval : ℕ
card_drift_interval = 300 * second

-- The loop of `upsertCard`, with the entry that it writes
unfoldable pub replace_card : List CardStatus → CardStatus → List CardStatus
replace_card [] c = c ∷ []
replace_card (x ∷ xs) c =
    let rest = replace_card xs c in
    if x.revision_digest == c.revision_digest then c ∷ xs else x ∷ rest

-- `upsertCard`
unfoldable pub upsert_card : List CardStatus → CardStatus → String → List CardStatus
unfolding replace_card
upsert_card cards c digest = replace_card cards (record c { revision_digest = digest })

-- `recordCardAttempt`: of an entry only the name, the time and the digest are modelled, and all are written.
unfoldable pub record_card_attempt : AgentStatus → String → String → ℕ → AgentStatus
unfolding replace_card
record_card_attempt status rev digest at = record status {
  cards =
      replace_card status.cards
        (record { revision = rev; revision_digest = digest; digest = ""; fetched_at = some at });
}

-- `cardFetchDue` of an entry with this fetch time and card digest
abbrev pub fetched_due : Option ℕ → String → ℕ → Bool
fetched_due none digest now = true
fetched_due (some t) digest now =
    if digest == "" then leb (t + card_retry_interval) now else leb (t + card_drift_interval) now

-- `cardFetchDue` of the entry that it finds
abbrev pub entry_due : Option CardStatus → ℕ → Bool
entry_due none now = true
entry_due (some c) now = fetched_due c.fetched_at c.digest now

-- `cardFetchDue`
unfoldable pub card_fetch_due : AgentStatus → String → ℕ → Bool
unfolding card_entry
card_fetch_due status digest now = entry_due (card_entry status digest) now

-- `cardRequeueAfter` of the entry that it finds
abbrev pub entry_requeue : Option CardStatus → ℕ
entry_requeue none = card_retry_interval
entry_requeue (some c) = if c.digest == "" then card_retry_interval else card_drift_interval

-- `cardRequeueAfter`
unfoldable pub card_requeue_after : AgentStatus → String → ℕ
unfolding card_entry
card_requeue_after status digest = entry_requeue (card_entry status digest)

-- The entries of the revisions that are kept.
unfoldable pub keep_cards : (String → Bool) → List CardStatus → List CardStatus
keep_cards keep [] = []
keep_cards keep (c ∷ cs) =
    let rest = keep_cards keep cs in if keep c.revision then c ∷ rest else rest

-- `pruneCards`: the cards it leaves, and whether it dropped any
unfoldable pub prune_cards : (String → Bool) → List CardStatus → List CardStatus × Bool
unfolding keep_cards
prune_cards keep cards =
    (keep_cards keep cards, not (nat_eq (length (keep_cards keep cards)) (length cards)))
