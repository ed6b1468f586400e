-- ===== src/Compiler/Groups.antt =====
-- What the CEL expression that admits groups evaluates to.
use assayd.Base.{
  ◌≡◌, refl, ap, ◌∙◌, Bool, true, false, not, ◌&&◌, ◌||◌, Option, none, some, List, [], ◌∷◌, String,
  ◌==◌, arith, inl, inr, Bool-cases, str_le, subst, if◌then◌else◌,
}
use assayd.Base.Sort.{insert_by, sort_by}
use assayd.Compiler.{
  Expr, ident, literal, select, call_equals, call_or, Admission, admits, group_empty,
  group_repeated, group_invalid, group_is, joined, repeats, admit_loop, admit_groups,
}

-- The value of a field expression for a key of this group, as CEL reads `apiKey.group`.
abbrev text_of : Expr → String → Option String
text_of (literal s) group = some s
text_of (select (ident x) field) group =
    if x == "apiKey" && field == "group" then some group else none
text_of _ group = none

abbrev same_text : Option String → Option String → Bool
same_text (some s) (some t) = s == t
same_text _ _ = false

-- Whether the expression is true of a key of this group.
abbrev pub holds_of : Expr → String → Bool
holds_of (call_equals a b) group = same_text (text_of a group) (text_of b group)
holds_of (call_or a b) group = holds_of a group || holds_of b group
holds_of _ group = false

-- Some of the groups is this one.
abbrev pub any_group : String → List String → Bool
any_group group [] = false
any_group group (g ∷ gs) = group == g || any_group group gs

any_group-insert_by :
    (group g : String) (gs : List String)
    → any_group group (insert_by (λ x. x) g gs) ≡ (group == g || any_group group gs)
any_group-insert_by group g [] = refl
any_group-insert_by group g (x ∷ xs) = elim (Bool-cases (str_le g x)) [
  | inl e ↦ rw e refl
  | inr e ↦ rw e (ground (arith, any_group-insert_by group g xs))
]

any_group-sort_by :
    (group : String) (gs : List String) → any_group group (sort_by (λ x. x) gs) ≡ any_group group gs
any_group-sort_by group [] = refl
any_group-sort_by group (g ∷ gs) =
    ground (arith, any_group-insert_by group g (sort_by (λ x. x) gs), any_group-sort_by group gs)

abbrev any_of : Option Expr → String → Bool
any_of none group = false
any_of (some e) group = holds_of e group

-- Where it admits, the expression holds of these groups alone.
abbrev Admits : Bool → String → Admission → Type 0
Admits wanted group (admits e) = holds_of e group ≡ wanted
Admits wanted group _ = Unit

branch-Admits :
    (wanted : Bool) (group : String) (b : Bool) (x y : Admission)
    → Admits wanted group x
    → Admits wanted group y
    → Admits wanted group (if b then x else y)
branch-Admits wanted group true x y p q = p
branch-Admits wanted group false x y p q = q

any_of-joined :
    (expr : Option Expr) (g group : String)
    → any_of (some (joined expr (group_is g))) group ≡ (any_of expr group || group == g)
any_of-joined none g group = refl
any_of-joined (some e) g group = refl

or_assoc : (a b c : Bool) → ((a || b) || c) ≡ (a || (b || c))
or_assoc true b c = refl
or_assoc false b c = refl

or_false : (b : Bool) → b ≡ (b || false)
or_false true = refl
or_false false = refl

admit_loop-Admits :
    (valid : String → Bool) (last : Option String) (expr : Option Expr) (groups : List String)
    (group : String)
    → Admits (any_of expr group || any_group group groups) group (admit_loop valid last expr groups)
unfolding admit_loop
admit_loop-Admits valid last none [] group = tt
admit_loop-Admits valid last (some e) [] group = or_false (holds_of e group)
admit_loop-Admits valid last expr (g ∷ gs) group =
    let wanted = any_of expr group || (group == g || any_group group gs) in
    let next = joined expr (group_is g) in
    let rest = admit_loop valid (some g) (some next) gs in
    branch-Admits wanted group (g == "") group_empty _ tt (
      branch-Admits wanted group (repeats last g) (group_repeated g) _ tt (
        branch-Admits wanted group (not (valid g)) (group_invalid g) rest tt (
          subst (λ b. Admits b group rest)
            (ap (λ b. b || any_group group gs) (any_of-joined expr g group)
              ∙ or_assoc (any_of expr group) (group == g) (any_group group gs))
            (admit_loop-Admits valid (some g) (some next) gs group))))

-- An expression that admits groups is true of a key exactly where the key's group is one of them.
pub admit_groups-holds_of :
    (valid : String → Bool) (groups : List String) (e : Expr) (group : String)
    → admit_groups valid groups ≡ admits e
    → holds_of e group ≡ any_group group groups
unfolding admit_groups
admit_groups-holds_of valid groups e group q =
    subst (Admits (any_group group (sort_by (λ x. x) groups)) group) q
      (admit_loop-Admits valid none none (sort_by (λ x. x) groups) group)
    ∙ any_group-sort_by group groups
