-- ===== src/Eval/Retention.antt =====
-- What failed[] and passed[] keep.
use assayd.Base.{
  ℕ, zero, suc, ◌+◌, ◌-◌, ◌≤◌, ◌≡◌, refl, sym, ◌∙◌, ◌≢◌, Bool, true, false, some, List, [], ◌∷◌,
  ◌++◌, String, ◌==◌, arith, length, length-append, length-drop, drop, All, eq_iff, eq_refl,
  Bool-cases, text_cases, subst, inl, inr, ltb, if◌then◌else◌,
}
use assayd.Status.{EvalPair}
use assayd.Eval.Records.{
  remove_passed, append_failed, evict_one, evict, append_passed, pair_failed, find_pair,
}

pair_failed-append :
    (l : List EvalPair) (p : EvalPair)
    → pair_failed (l ++ p ∷ []) p.revision_digest p.suite_digest ≡ true
unfolding pair_failed
pair_failed-append [] p = ground (arith, eq_refl p.revision_digest, eq_refl p.suite_digest)
pair_failed-append (x ∷ l) p = ground (arith, pair_failed-append l p)

drop-append :
    (n : ℕ) (l : List EvalPair) (p : EvalPair)
    → n ≤ length l
    → drop n (l ++ p ∷ []) ≡ drop n l ++ p ∷ []
drop-append zero l p h = refl
drop-append (suc n) [] p h = elim h [ ]
drop-append (suc n) (x ∷ l) p h = drop-append n l p (omega arith)

append_failed_eq :
    (l : List EvalPair) (p : EvalPair) → append_failed l p ≡ drop (length l - 9) l ++ p ∷ []
unfolding append_failed
append_failed_eq l p =
    ground (arith, length-append l (p ∷ []), drop-append (length l - 9) l p, drop-append 0 l p)

-- The new pair is recorded, the pairs before it are the newest nine of those there were, and the list
-- is within the CRD's cap.
pub append_failed_keeps :
    (l : List EvalPair) (p : EvalPair)
    → (pair_failed (append_failed l p) p.revision_digest p.suite_digest ≡ true)
      × (append_failed l p ≡ drop (length l - 9) l ++ p ∷ [])
      × (length (append_failed l p) ≤ 10)
append_failed_keeps l p = rw (append_failed_eq l p) (
  pair_failed-append (drop (length l - 9) l) p,
  refl,
  omega (arith, length-append (drop (length l - 9) l) (p ∷ []), length-drop (length l - 9) l),
)

-- No two entries name one revision.
abbrev pub HasUniqueRevisions : List EvalPair → Type 0
HasUniqueRevisions [] = Unit
HasUniqueRevisions (x ∷ xs) =
    All (λ (y : EvalPair). y.revision_digest ≢ x.revision_digest) xs × HasUniqueRevisions xs

All-remove_passed :
    (P : EvalPair → Type 0) (l : List EvalPair) (d : String) → All P l → All P (remove_passed l d)
unfolding remove_passed
All-remove_passed P [] d h = tt
All-remove_passed P (x ∷ l) d h = ground (arith, All-remove_passed P l d h.1)

remove_passed-ne :
    (l : List EvalPair) (d : String)
    → All (λ (y : EvalPair). y.revision_digest ≢ d) (remove_passed l d)
unfolding remove_passed
remove_passed-ne [] d = tt
remove_passed-ne (x ∷ l) d = ground (arith, remove_passed-ne l d, eq_iff x.revision_digest d)

remove_passed_unique :
    (l : List EvalPair) (d : String) → HasUniqueRevisions l → HasUniqueRevisions (remove_passed l d)
unfolding remove_passed
remove_passed_unique [] d h = tt
remove_passed_unique (x ∷ l) d h = ground (
  arith,
  remove_passed_unique l d h.1,
  All-remove_passed (λ (y : EvalPair). y.revision_digest ≢ x.revision_digest) l d h.0,
)

pub find_pair-remove_passed :
    (l : List EvalPair) (d k : String) → d ≢ k → find_pair (remove_passed l d) k ≡ find_pair l k
unfolding find_pair remove_passed
find_pair-remove_passed [] d k ne = refl
find_pair-remove_passed (x ∷ l) d k ne = ground (
  arith,
  find_pair-remove_passed l d k ne,
  eq_iff x.revision_digest d,
  eq_iff x.revision_digest k,
)

find_pair-append_self :
    (l : List EvalPair) (p : EvalPair)
    → All (λ (y : EvalPair). y.revision_digest ≢ p.revision_digest) l
    → find_pair (l ++ p ∷ []) p.revision_digest ≡ some p
unfolding find_pair
find_pair-append_self [] p h = rw (eq_refl p.revision_digest)
find_pair-append_self (x ∷ l) p h =
    ground (arith, find_pair-append_self l p h.1, eq_iff x.revision_digest p.revision_digest)

find_pair-append_ne :
    (l : List EvalPair) (p : EvalPair) (k : String)
    → p.revision_digest ≢ k
    → find_pair (l ++ p ∷ []) k ≡ find_pair l k
unfolding find_pair
find_pair-append_ne [] p k ne = ground (arith, eq_iff p.revision_digest k)
find_pair-append_ne (x ∷ l) p k ne = ground (arith, find_pair-append_ne l p k ne)

-- Some entry names another revision.
has_other : String → List EvalPair → Bool
has_other active [] = false
has_other active (x ∷ xs) = if x.revision_digest == active then has_other active xs else true

has_other_of_two :
    (active : String) (x y : EvalPair) (l : List EvalPair)
    → HasUniqueRevisions (x ∷ y ∷ l)
    → has_other active (x ∷ y ∷ l) ≡ true
unfolding has_other
has_other_of_two active x y l h =
    ground (arith, eq_iff x.revision_digest active, eq_iff y.revision_digest active)

has_other_of_length :
    (active : String) (l : List EvalPair)
    → HasUniqueRevisions l
    → 2 ≤ length l
    → has_other active l ≡ true
has_other_of_length active [] h n = absurd (omega arith)
has_other_of_length active (x ∷ []) h n = absurd (omega arith)
has_other_of_length active (x ∷ y ∷ l) h n = has_other_of_two active x y l h

module _ (active : String) where
  find_pair-evict_one :
      (l : List EvalPair) → find_pair (evict_one active l) active ≡ find_pair l active
  unfolding find_pair evict_one
  find_pair-evict_one [] = refl
  find_pair-evict_one (x ∷ l) = ground (arith, find_pair-evict_one l)

  All-evict_one : (P : EvalPair → Type 0) (l : List EvalPair) → All P l → All P (evict_one active l)
  unfolding evict_one
  All-evict_one P [] h = tt
  All-evict_one P (x ∷ l) h = ground (arith, All-evict_one P l h.1)

  evict_one_unique :
      (l : List EvalPair) → HasUniqueRevisions l → HasUniqueRevisions (evict_one active l)
  unfolding evict_one
  evict_one_unique [] h = tt
  evict_one_unique (x ∷ l) h = ground (
    arith,
    evict_one_unique l h.1,
    All-evict_one (λ (y : EvalPair). y.revision_digest ≢ x.revision_digest) l h.0,
  )

  length-evict_one :
      (l : List EvalPair) → has_other active l ≡ true → length (evict_one active l) + 1 ≡ length l
  unfolding evict_one has_other
  length-evict_one [] h = cc
  length-evict_one (x ∷ l) h = ground (arith, length-evict_one l)

  evict_one-append :
      (l : List EvalPair) (p : EvalPair)
      → has_other active l ≡ true
      → evict_one active (l ++ p ∷ []) ≡ evict_one active l ++ p ∷ []
  unfolding evict_one has_other
  evict_one-append [] p h = cc
  evict_one-append (x ∷ l) p h = ground (arith, evict_one-append l p)

  -- What the loop leaves of the entries before the new one.
  record Kept (P : EvalPair → Type 0) (l : List EvalPair) (p : EvalPair) (out : List EvalPair)
      : Type 0 where
    front : List EvalPair
    shape : out ≡ front ++ p ∷ []
    unique : HasUniqueRevisions front
    others : All P front
    active_kept : find_pair front active ≡ find_pair l active
    capped : length front ≤ 9

  evict-Kept :
      (P : EvalPair → Type 0) (fuel : ℕ) (l : List EvalPair) (p : EvalPair)
      → HasUniqueRevisions l
      → All P l
      → length l ≤ fuel + 9
      → Kept P l p (evict fuel active (l ++ p ∷ []))
  unfolding evict
  evict-Kept P zero l p u a h = record {
    front = l;
    shape = refl;
    unique = u;
    others = a;
    active_kept = refl;
    capped = h;
  }
  evict-Kept P (suc fuel) l p u a h = elim (Bool-cases (ltb 10 (length (l ++ p ∷ [])))) [
    | inl long ↦
        let n : 10 ≤ length l = ground (arith, length-append l (p ∷ [])) in
        let other = has_other_of_length active l u (omega arith) in
        let ih =
          evict-Kept P fuel (evict_one active l) p (evict_one_unique l u) (All-evict_one P l a)
            (omega (arith, length-evict_one l other)) in
        rw (long, evict_one-append l p other)
          (record {
            front = ih.front;
            shape = ih.shape;
            unique = ih.unique;
            others = ih.others;
            active_kept = ih.active_kept ∙ find_pair-evict_one l;
            capped = ih.capped;
          })
    | inr short ↦ rw short (record {
      front = l;
      shape = refl;
      unique = u;
      others = a;
      active_kept = refl;
      capped = ground (arith, length-append l (p ∷ []));
    })
  ]

All-append :
    (P : EvalPair → Type 0) (l : List EvalPair) (p : EvalPair) → All P l → P p → All P (l ++ p ∷ [])
All-append P [] p h q = (q, tt)
All-append P (x ∷ l) p h q = (h.0, All-append P l p h.1 q)

unique-append :
    (l : List EvalPair) (p : EvalPair)
    → HasUniqueRevisions l
    → All (λ (y : EvalPair). y.revision_digest ≢ p.revision_digest) l
    → HasUniqueRevisions (l ++ p ∷ [])
unique-append [] p u a = (tt, tt)
unique-append (x ∷ l) p u a = (
  All-append (λ (y : EvalPair). y.revision_digest ≢ x.revision_digest) l p u.0 (λ e. a.0 (sym e)),
  unique-append l p u.1 a.1,
)

-- passed[] after a record is replaced: no two entries name one revision, the list is within the CRD's
-- cap, the new pair is its revision's entry, and the active revision's entry, whichever it is, is never
-- evicted. No two entries name one revision before.
pub append_passed_keeps :
    (l : List EvalPair) (p : EvalPair) (active : String)
    → HasUniqueRevisions l
    → HasUniqueRevisions (append_passed l p active)
      × (length (append_passed l p active) ≤ 10)
      × (find_pair (append_passed l p active) p.revision_digest ≡ some p)
      × (find_pair (append_passed l p active) active
          ≡ (if p.revision_digest == active then some p else find_pair l active))
unfolding append_passed
append_passed_keeps l p active u =
    let rest = remove_passed l p.revision_digest in
    let k =
      evict-Kept active (λ (y : EvalPair). y.revision_digest ≢ p.revision_digest)
        (length (rest ++ p ∷ [])) rest p (remove_passed_unique l p.revision_digest u)
        (remove_passed-ne l p.revision_digest) (omega (arith, length-append rest (p ∷ []))) in
    let own = find_pair-append_self k.front p k.others in
    rw k.shape (
      unique-append k.front p k.unique k.others,
      omega (arith, length-append k.front (p ∷ []), k.capped),
      own,
      elim (text_cases p.revision_digest active) [
        | inl (e, same) ↦ rw e (subst (λ a. find_pair (k.front ++ p ∷ []) a ≡ some p) same own)
        | inr (e, ne) ↦ rw e (
            find_pair-append_ne k.front p active ne
            ∙ k.active_kept
            ∙ find_pair-remove_passed l p.revision_digest active ne)
      ],
    )
