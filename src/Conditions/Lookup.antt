-- ===== src/Conditions/Lookup.antt =====
-- The conditions as a map from types.
use assayd.Base.{
  ℕ, ◌≡◌, refl, ap, ◌∙◌, true, Option, none, some, List, [], ◌∷◌, String, ◌==◌, arith, eq_iff,
  if◌then◌else◌, str_le, str_le_total, map,
}
use assayd.Base.Sort.{insert_by, sort_by}
use assayd.Conditions.{Condition, find, delete, stamp_new, sorted_conditions}

abbrev condition_type : Condition → String
condition_type c = c.type

le_refl : (s : String) → str_le s s ≡ true
le_refl s = ground (arith, str_le_total s s)

find-insert_by :
    (c : Condition) (cs : List Condition) (t : String)
    → find (insert_by condition_type c cs) t ≡ (if c.type == t then some c else find cs t)
unfolding find
find-insert_by c [] t = refl
find-insert_by c (x ∷ cs) t =
    ground (arith, find-insert_by c cs t, eq_iff c.type t, eq_iff x.type t, le_refl t)

-- Sorting loses no read.
pub find-sorted_conditions :
    (cs : List Condition) (t : String) → find (sorted_conditions cs) t ≡ find cs t
unfolding find sorted_conditions
find-sorted_conditions [] t = refl
find-sorted_conditions (c ∷ cs) t =
    find-insert_by c (sort_by condition_type cs) t
    ∙ ap (λ r. if c.type == t then some c else r) (find-sorted_conditions cs t)

abbrev pub stamped_new : ℕ → Option Condition → Option Condition
stamped_new now none = none
stamped_new now (some c) = some (stamp_new now c)

pub find-map-stamp_new :
    (now : ℕ) (cs : List Condition) (t : String)
    → find (map (stamp_new now) cs) t ≡ stamped_new now (find cs t)
unfolding find
find-map-stamp_new now [] t = refl
find-map-stamp_new now (c ∷ cs) t = ground (arith, find-map-stamp_new now cs t)

pub find-delete :
    (cs : List Condition) (k t : String)
    → find (delete cs k) t ≡ (if k == t then none else find cs t)
unfolding find delete
find-delete [] k t = ground arith
find-delete (c ∷ cs) k t =
    ground (arith, find-delete cs k t, eq_iff c.type k, eq_iff c.type t, eq_iff k t)

pub find-type : (cs : List Condition) (t : String) (c : Condition) → find cs t ≡ some c → c.type ≡ t
unfolding find
find-type [] t c h = absurd (ground arith)
find-type (x ∷ cs) t c h = ground (arith, find-type cs t c, eq_iff x.type t)
