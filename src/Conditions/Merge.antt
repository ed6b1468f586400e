-- ===== src/Conditions/Merge.antt =====
-- What a merge keeps, clears and asserts.
use assayd.Base.{
  ℕ, ◌≡◌, refl, true, not, ◌||◌, Option, none, some, List, [], ◌∷◌, String, arith, eq_iff,
  if◌then◌else◌, Option-cases, inl, inr,
}
use assayd.Conditions.{
  ConditionSet, Condition, find, delete, merge, merge_with, stamp, stamp_new, same_status, is_owned,
  is_sticky, sorted_conditions, ConditionStatus, cond_true, cond_false, cond_unknown,
}
use assayd.Conditions.Lookup.{find-sorted_conditions, find-map-stamp_new, find-delete, find-type}

-- A condition that the pass asserted: its transition time is kept while its status is.
abbrev asserted_entry : ℕ → Option Condition → Condition → Condition
asserted_entry now none next = stamp_new now next
asserted_entry now (some prev) next = stamp now prev next

-- A condition that the pass did not speak to: kept when it is sticky or another controller's.
abbrev kept_entry : String → Option Condition → Option Condition
kept_entry t none = none
kept_entry t (some prev) = if is_sticky t || not (is_owned t) then some prev else none

-- What a merge says of a type, from what the pass asserted and what is stored.
abbrev pub merged_entry : ℕ → String → Option Condition → Option Condition → Option Condition
merged_entry now t (some next) prev = some (asserted_entry now prev next)
merged_entry now t none prev = kept_entry t prev

find-merge_with :
    (now : ℕ) (asserted existing : List Condition) (t : String)
    → find (merge_with now asserted existing) t
      ≡ merged_entry now t (find asserted t) (find existing t)
unfolding find merge_with
find-merge_with now asserted [] t = ground (
  arith,
  find-map-stamp_new now (sorted_conditions asserted) t,
  find-sorted_conditions asserted t,
)
find-merge_with now asserted (prev ∷ existing) t = elim (Option-cases (find asserted prev.type)) [
  | inl q ↦
      ground
        (arith, find-merge_with now asserted existing t, eq_iff prev.type t, find-type existing t)
  | inr (next, q) ↦ ground (
    arith,
    find-merge_with now (delete asserted prev.type) existing t,
    find-delete asserted prev.type t,
    find-type asserted prev.type next,
    eq_iff prev.type t,
  )
]

-- After a merge, a type that the pass asserted reads as asserted, with its earlier transition time while
-- its status is unchanged; a type that it did not assert reads as stored when it is sticky or another
-- controller's; and any other type is cleared.
pub find-merge :
    (c : ConditionSet) (now : ℕ) (existing : List Condition) (t : String)
    → find (merge c now existing) t ≡ merged_entry now t (find c.asserted t) (find existing t)
find-merge c now existing t = find-merge_with now c.asserted existing t

same_status_refl : (s : ConditionStatus) → same_status s s ≡ true
same_status_refl cond_true = refl
same_status_refl cond_false = refl
same_status_refl cond_unknown = refl

merged_entry-settled :
    (now later : ℕ) (t : String) (a e : Option Condition)
    → merged_entry later t a (merged_entry now t a e) ≡ merged_entry now t a e
merged_entry-settled now later t none none = refl
merged_entry-settled now later t none (some prev) = ground arith
merged_entry-settled now later t (some next) none = ground (arith, same_status_refl next.status)
merged_entry-settled now later t (some next) (some prev) =
    ground (arith, same_status_refl next.status)

-- A later pass that asserts the same leaves every condition as it is, its transition time included.
pub merge-settled :
    (c : ConditionSet) (now later : ℕ) (existing : List Condition) (t : String)
    → find (merge c later (merge c now existing)) t ≡ find (merge c now existing) t
merge-settled c now later existing t = ground (
  arith,
  find-merge c later (merge c now existing) t,
  find-merge c now existing t,
  merged_entry-settled now later t (find c.asserted t) (find existing t),
)
