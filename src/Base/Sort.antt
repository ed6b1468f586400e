-- ===== src/Base/Sort.antt =====
-- Sorting by a text key, as `sort.Strings`, `sort.Slice` and `sort.SliceStable` with `<` on a key.
use Prim.Native.String.{String}
use mathlib.Core.Path.{◌≡◌, refl, sym, ap, ◌∙◌, subst}
use mathlib.Core.Bool.{true, false}
use mathlib.Core.Logic.{inl, inr, ∥∥₁_map}
use mathlib.Core.List.{List, [], ◌∷◌, Permᴰ, Mem, Memᴰ}
use mathlib.Core.List.Permᴰ
use native.Mathlib.Omega.{arith}
use assayd.Base.Order.{str_le, str_le_total, str_le_trans, str_le_antisymm}
use assayd.Base.Lists.{All}
use assayd.Base.Tests.{if◌then◌else◌, Bool-cases}

mem_head {ℓ} : {A : Type ℓ} {x : A} {xs : List A} → Mem x (x ∷ xs)
mem_head = ∣ Memᴰ.head refl ∣₁

mem_tail {ℓ} : {A : Type ℓ} {x y : A} {xs : List A} → Mem x xs → Mem x (y ∷ xs)
mem_tail m = ∥∥₁_map m Memᴰ.tail

module _ {ℓ} {A : Type ℓ} (key : A → String) where
  -- Before the first element whose key is not below `x`'s, so equal keys keep their order.
  abbrev pub insert_by : A → List A → List A
  insert_by x [] = x ∷ []
  insert_by x (y ∷ ys) = if str_le (key x) (key y) then x ∷ y ∷ ys else y ∷ insert_by x ys

  abbrev pub sort_by : List A → List A
  sort_by [] = []
  sort_by (x ∷ xs) = insert_by x (sort_by xs)

  -- Each element is at most all those after it.
  abbrev pub IsSortedBy : List A → Type 0
  IsSortedBy [] = Unit
  IsSortedBy (x ∷ xs) = All (λ y. str_le (key x) (key y) ≡ true) xs × IsSortedBy xs

  pub All-insert_by {κ} :
      (P : A → Type κ) (x : A) (ys : List A) → P x → All P ys → All P (insert_by x ys)
  All-insert_by P x [] p h = (p, h)
  All-insert_by P x (y ∷ ys) p h = elim (Bool-cases (str_le (key x) (key y))) [
    | inl e ↦ rw e (p, h)
    | inr e ↦ rw e (h.0, All-insert_by P x ys p h.1)
  ]

  pub All-sort_by {κ} : (P : A → Type κ) (xs : List A) → All P xs → All P (sort_by xs)
  All-sort_by P [] h = h
  All-sort_by P (x ∷ xs) h = All-insert_by P x (sort_by xs) h.0 (All-sort_by P xs h.1)

  All-le :
      (x y : A) (ys : List A)
      → str_le (key x) (key y) ≡ true
      → All (λ z. str_le (key y) (key z) ≡ true) ys
      → All (λ z. str_le (key x) (key z) ≡ true) ys
  All-le x y [] h a = a
  All-le x y (z ∷ ys) h a = (str_le_trans (key x) (key y) (key z) h a.0, All-le x y ys h a.1)

  insert_by-IsSortedBy : (x : A) (ys : List A) → IsSortedBy ys → IsSortedBy (insert_by x ys)
  insert_by-IsSortedBy x [] h = (tt, tt)
  insert_by-IsSortedBy x (y ∷ ys) h = elim (Bool-cases (str_le (key x) (key y))) [
    | inl e ↦ rw e ((e, All-le x y ys e h.0), h)
    | inr e ↦ rw e (
      All-insert_by (λ z. str_le (key y) (key z) ≡ true) x ys
          (ground (arith, str_le_total (key x) (key y))) h.0,
      insert_by-IsSortedBy x ys h.1,
    )
  ]

  pub sort_by-IsSortedBy : (xs : List A) → IsSortedBy (sort_by xs)
  sort_by-IsSortedBy [] = tt
  sort_by-IsSortedBy (x ∷ xs) = insert_by-IsSortedBy x (sort_by xs) (sort_by-IsSortedBy xs)

  insert_by_lt :
      (x y : A) (zs : List A)
      → str_le (key x) (key y) ≡ true
      → str_le (key y) (key x) ≡ false
      → insert_by x (insert_by y zs) ≡ insert_by y (insert_by x zs)
  insert_by_lt x y [] e f = ground arith
  insert_by_lt x y (z ∷ zs) e f =
      ground (arith, str_le_trans (key x) (key y) (key z), insert_by_lt x y zs)

  -- Two insertions commute, if equal keys mean equal elements.
  pub insert_by_comm :
      (x y : A) (zs : List A)
      → (key x ≡ key y → x ≡ y)
      → insert_by x (insert_by y zs) ≡ insert_by y (insert_by x zs)
  insert_by_comm x y zs same = elim (Bool-cases (str_le (key x) (key y))) [
    | inl e ↦ elim (Bool-cases (str_le (key y) (key x))) [
      | inl f ↦
          subst (λ w. insert_by x (insert_by w zs) ≡ insert_by w (insert_by x zs))
            (same (str_le_antisymm (key x) (key y) e f)) refl
      | inr f ↦ insert_by_lt x y zs e f
    ]
    | inr e ↦ sym (insert_by_lt y x zs (ground (arith, str_le_total (key x) (key y))) e)
  ]

  -- Reordering a list does not change what it sorts to, if equal keys mean equal elements.
  pub sort_by-perm :
      {xs ys : List A}
      → Permᴰ xs ys
      → ((x y : A) → Mem x xs → Mem y xs → key x ≡ key y → x ≡ y)
      → sort_by xs ≡ sort_by ys
  sort_by-perm Permᴰ.nil same = refl
  sort_by-perm (Permᴰ.cons {a = a} {b = b} {l₁ = l₁} e p) same =
      ap (λ c. insert_by c (sort_by l₁)) e
      ∙ ap (insert_by b) (sort_by-perm p (λ x y m n. same x y (mem_tail m) (mem_tail n)))
  sort_by-perm (Permᴰ.swap {a = a} {b = b} {a' = a'} {l = l} e f) same =
      insert_by_comm a b (sort_by l) (same a b mem_head (mem_tail mem_head))
      ∙ ap (λ c. insert_by c (insert_by a (sort_by l))) f
      ∙ ap (λ c. insert_by a' (insert_by c (sort_by l))) e
  sort_by-perm (Permᴰ.trans p q) same =
      sort_by-perm p same
      ∙ sort_by-perm q
          (λ x y m n. same x y (Permᴰ.mem (Permᴰ.symm p) m) (Permᴰ.mem (Permᴰ.symm p) n))

  insert_by-perm : (x : A) (xs : List A) → Permᴰ (x ∷ xs) (insert_by x xs)
  insert_by-perm x [] = Permᴰ.refl (x ∷ [])
  insert_by-perm x (y ∷ ys) = elim (Bool-cases (str_le (key x) (key y))) [
    | inl e ↦ rw e (Permᴰ.refl (x ∷ y ∷ ys))
    | inr e ↦ rw e (Permᴰ.trans (Permᴰ.swap refl refl) (Permᴰ.cons refl (insert_by-perm x ys)))
  ]

  -- Sorting only reorders.
  pub perm-sort_by : (xs : List A) → Permᴰ xs (sort_by xs)
  perm-sort_by [] = Permᴰ.nil
  perm-sort_by (x ∷ xs) =
      Permᴰ.trans (Permᴰ.cons refl (perm-sort_by xs)) (insert_by-perm x (sort_by xs))
