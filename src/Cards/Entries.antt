-- ===== src/Cards/Entries.antt =====
-- What is read of status.cards after its operations, and when a revision's card is read again.
use assayd.Base.{
  ℕ, ◌+◌, ◌≡◌, refl, ap, Bool, false, not, ◌&&◌, inl, inr, some, List, [], ◌∷◌, String, ◌==◌,
  if◌then◌else◌, arith, Bool-cases, eq_iff, leb,
}
use assayd.Status.{CardStatus, AgentStatus}
use assayd.Predicates.{find_card, card_entry, has_card_for, any_carded}
use assayd.Cards.{
  card_retry_interval, card_drift_interval, replace_card, upsert_card, record_card_attempt,
  card_fetch_due, card_requeue_after, keep_cards,
}

find_card-replace_card :
    (cards : List CardStatus) (c : CardStatus) (digest : String)
    → find_card (replace_card cards c) digest
      ≡ (if c.revision_digest == digest then some c else find_card cards digest)
unfolding find_card replace_card
find_card-replace_card [] c digest = refl
find_card-replace_card (x ∷ xs) c digest = ground (
  arith,
  find_card-replace_card xs c digest,
  eq_iff x.revision_digest c.revision_digest,
  eq_iff x.revision_digest digest,
  eq_iff c.revision_digest digest,
)

-- The entry that `upsertCard` writes, and the one that `recordCardAttempt` does.
abbrev pub registered_entry : CardStatus → String → CardStatus
registered_entry c digest = record c { revision_digest = digest }

abbrev pub attempt_entry : String → String → ℕ → CardStatus
attempt_entry rev digest at = record {
  revision = rev;
  revision_digest = digest;
  digest = "";
  fetched_at = some at;
}

-- After a card is registered for a revision, that revision's entry is the card, with the revision's digest;
-- after an attempt that failed, it is one without a card, of this revision name and time. The entry of
-- every other revision is what it was. So the first makes the revision registered, if the card has a
-- digest, the second makes it not, and neither changes whether another is.
pub upsert_card-card_entry :
    (status : AgentStatus) (c : CardStatus) (rev digest other : String) (at : ℕ)
    → let registered = record status { cards = upsert_card status.cards c digest } in
      let failed = record_card_attempt status rev digest at in
      (card_entry registered other
        ≡ (if digest == other then some (registered_entry c digest) else card_entry status other))
      × (card_entry failed other ≡ (
          if digest == other then some (attempt_entry rev digest at) else card_entry status other))
      × (has_card_for registered other
          ≡ (if digest == other then not (c.digest == "") else has_card_for status other))
      × (has_card_for failed other ≡ (if digest == other then false else has_card_for status other))
unfolding has_card_for upsert_card record_card_attempt card_entry
upsert_card-card_entry status c rev digest other at =
    let a = find_card-replace_card status.cards (registered_entry c digest) other in
    let b = find_card-replace_card status.cards (attempt_entry rev digest at) other in
    (a, b, ground (arith, a), ground (arith, b))

-- A card that is registered, with the time at which it was read.
abbrev pub read_at : CardStatus → ℕ → CardStatus
read_at c t = record c { fetched_at = some t }

-- When a revision's card is read at a time, or the attempt fails then, the next read of that revision is
-- due just from the end of the requeue that follows that time: the drift interval where the card has a
-- digest, and the retry interval otherwise. When another revision's is due, and its requeue, do not change.
pub card_fetch_due-requeue :
    (status : AgentStatus) (c : CardStatus) (rev digest other : String) (t now : ℕ)
    → let registered = record status { cards = upsert_card status.cards (read_at c t) digest } in
      let failed = record_card_attempt status rev digest t in
      (card_fetch_due registered other now ≡ (
        if digest == other
        then leb (t + card_requeue_after registered digest) now
        else card_fetch_due status other now))
      × (card_fetch_due failed other now ≡ (
          if digest == other
          then leb (t + card_requeue_after failed digest) now
          else card_fetch_due status other now))
      × (card_requeue_after registered other ≡ (
          if digest == other
          then (if c.digest == "" then card_retry_interval else card_drift_interval)
          else card_requeue_after status other))
      × (card_requeue_after failed other
          ≡ (if digest == other then card_retry_interval else card_requeue_after status other))
unfolding card_fetch_due card_requeue_after card_entry upsert_card record_card_attempt
card_fetch_due-requeue status c rev digest other t now =
    let a = find_card-replace_card status.cards (registered_entry (read_at c t) digest) other in
    let a' = find_card-replace_card status.cards (registered_entry (read_at c t) digest) digest in
    let b = find_card-replace_card status.cards (attempt_entry rev digest t) other in
    let b' = find_card-replace_card status.cards (attempt_entry rev digest t) digest in
    (
      ground (arith, a, a', eq_iff digest digest),
      ground (arith, b, b', eq_iff digest digest),
      ground (arith, a),
      ground (arith, b),
    )

-- Pruning keeps the cards of the revisions that are kept, and of no other.
pub any_carded-keep_cards :
    (keep : String → Bool) (cards : List CardStatus) (rev : String)
    → any_carded (keep_cards keep cards) rev ≡ (keep rev && any_carded cards rev)
unfolding any_carded keep_cards
any_carded-keep_cards keep [] rev = ground arith
any_carded-keep_cards keep (c ∷ cs) rev = elim (Bool-cases (c.revision == rev)) [
  | inl e ↦
      let same : keep c.revision ≡ keep rev = ap keep ((eq_iff c.revision rev).0 e) in
      ground (arith, any_carded-keep_cards keep cs rev, same, e)
  | inr e ↦ ground (arith, any_carded-keep_cards keep cs rev, e)
]
