-- ===== src/Revision/Content/Bytes.antt =====
-- What `ContentDigest` writes tells two contents apart: every text is read back by the length before it.
use mathlib.Core.List.{
  Permᴰ, append_assoc, append_cancel_left, head-eq_of_cons-eq, tail-eq_of_cons-eq,
}
use mathlib.Core.List.Permᴰ
use assayd.Base.{
  ℕ, zero, suc, ◌+◌, ◌*◌, ◌-◌, ◌/◌, ◌%◌, ◌≤◌, ◌≡◌, ◌≢◌, refl, sym, ap, ◌∙◌, subst, ◌↔◌, false, inl,
  inr, Option, some, none, List, [], ◌∷◌, ◌++◌, String, arith, nat_eq, ltb, if◌then◌else◌,
  Bool-cases, length,
}
use assayd.Base.Sort.{sort_by, sort_by-perm, perm-sort_by}
use assayd.Suite.{decimal_from}
use assayd.Revision.Content.{
  Datum, BinaryDatum, Content, write_counted, data_tag, binary_tag, write_data, write_binary,
  content_digest, HasUniqueKeys, SameContent, IsFaithfulHash,
}

-- Reads a decimal number up to a colon.
read_number : List ℕ → ℕ → Option (ℕ × List ℕ)
read_number [] n = none
read_number (b ∷ bs) n =
    let rest = read_number bs (n * 10 + (b - b'0')) in if nat_eq b b':' then some (n, bs) else rest

read_number-digit :
    (n d : ℕ) (next : List ℕ)
    → d ≤ 9
    → read_number ((b'0' + d) ∷ next) n ≡ read_number next (n * 10 + d)
unfolding read_number
read_number-digit n d next le =
    let colon : nat_eq (b'0' + d) b':' ≡ false = ground (arith, le) in
    let value : n * 10 + (b'0' + d - b'0') ≡ n * 10 + d = omega arith in rw (colon, value) refl

read_number-decimal_from :
    (fuel n : ℕ) (next : List ℕ)
    → n ≤ fuel
    → read_number (decimal_from fuel n ++ next) 0 ≡ read_number next n
unfolding decimal_from
read_number-decimal_from zero n next le =
    let q : 0 * 10 + n % 10 ≡ n = omega (arith, le) in
    read_number-digit 0 (n % 10) next (omega arith) ∙ ap (read_number next) q
read_number-decimal_from (suc fuel) n next le = elim (Bool-cases (ltb n 10)) [
  | inl e ↦
      rw e (read_number-digit 0 n next (ground (arith, e)) ∙ ap (read_number next) (omega arith))
  | inr e ↦
      let last = (b'0' + n % 10) ∷ [] in
      let value : n / 10 * 10 + n % 10 ≡ n = omega arith in
      rw e (
        ap (λ l. read_number l 0) (append_assoc (decimal_from fuel (n / 10)) last next)
        ∙ read_number-decimal_from fuel (n / 10) (last ++ next) (ground (arith, le, e))
        ∙ read_number-digit (n / 10) (n % 10) next (omega arith)
        ∙ ap (read_number next) value)
]

append_split {ℓ} :
    {A : Type ℓ} (a b r s : List A) → length a ≡ length b → a ++ r ≡ b ++ s → (a ≡ b) × (r ≡ s)
append_split [] [] r s len e = (refl, e)
append_split [] (y ∷ b) r s len e = absurd (omega (arith, len))
append_split (x ∷ a) [] r s len e = absurd (omega (arith, len))
append_split (x ∷ a) (y ∷ b) r s len e =
    let (tails, rests) = append_split a b r s (omega (arith, len)) (tail-eq_of_cons-eq e) in
    (λ i. head-eq_of_cons-eq e i ∷ tails i, rests)

abbrev number_of : Option (ℕ × List ℕ) → ℕ
number_of none = 0
number_of (some p) = p.0

abbrev rest_of : Option (ℕ × List ℕ) → List ℕ
rest_of none = []
rest_of (some p) = p.1

read_number-counted :
    (bytes next : List ℕ)
    → read_number (write_counted bytes next) 0 ≡ some (length bytes, bytes ++ next)
unfolding write_counted read_number
read_number-counted bytes next =
    read_number-decimal_from (length bytes) (length bytes) (b':' ∷ (bytes ++ next)) (omega arith)

-- What is counted is read back, with what follows it.
write_counted-eq : (a b r s : List ℕ) → write_counted a r ≡ write_counted b s → (a ≡ b) × (r ≡ s)
write_counted-eq a b r s e =
    let both : some (length a, a ++ r) ≡ some (length b, b ++ s) =
      sym (read_number-counted a r) ∙ ap (λ l. read_number l 0) e ∙ read_number-counted b s in
    append_split a b r s (ap number_of both) (ap rest_of both)

abbrev first_byte : List ℕ → ℕ
first_byte [] = 0
first_byte (b ∷ _) = b

module _ (utf8 : String → List ℕ) (injective : (s t : String) → utf8 s ≡ utf8 t → s ≡ t) where
  write_binary-injective :
      (ds bs : List BinaryDatum) → write_binary utf8 ds ≡ write_binary utf8 bs → ds ≡ bs
  unfolding write_binary
  write_binary-injective [] [] e = refl
  write_binary-injective [] (b ∷ bs) e = absurd (omega (arith, ap first_byte e))
  write_binary-injective (a ∷ ds) [] e = absurd (omega (arith, ap first_byte e))
  write_binary-injective (a ∷ ds) (b ∷ bs) e =
      let (keys, after_key) =
        write_counted-eq (utf8 a.key) (utf8 b.key) _ _ (append_cancel_left binary_tag _ _ e) in
      let (values, after_value) =
        write_counted-eq a.value b.value _ _ (tail-eq_of_cons-eq after_key) in
      let rest = write_binary-injective ds bs (tail-eq_of_cons-eq after_value) in
      let key = injective a.key b.key keys in λ i. record { key = key i; value = values i } ∷ rest i

  data_start : (ds : List BinaryDatum) → first_byte (write_binary utf8 ds) ≢ b'd'
  unfolding write_binary
  data_start [] = λ q. absurd (omega (arith, q))
  data_start (d ∷ ds) = λ q. absurd (omega (arith, q))

  write_data-injective :
      (ds bs : List Datum) (xs ys : List BinaryDatum)
      → write_data utf8 ds (write_binary utf8 xs) ≡ write_data utf8 bs (write_binary utf8 ys)
      → (ds ≡ bs) × (xs ≡ ys)
  unfolding write_data
  write_data-injective [] [] xs ys e = (refl, write_binary-injective xs ys e)
  write_data-injective [] (b ∷ bs) xs ys e = absurd (data_start xs (ap first_byte e))
  write_data-injective (a ∷ ds) [] xs ys e = absurd (data_start ys (sym (ap first_byte e)))
  write_data-injective (a ∷ ds) (b ∷ bs) xs ys e =
      let (keys, after_key) =
        write_counted-eq (utf8 a.key) (utf8 b.key) _ _ (append_cancel_left data_tag _ _ e) in
      let (values, after_value) =
        write_counted-eq (utf8 a.value) (utf8 b.value) _ _ (tail-eq_of_cons-eq after_key) in
      let (rest, binaries) = write_data-injective ds bs xs ys (tail-eq_of_cons-eq after_value) in
      let key = injective a.key b.key keys in
      let value = injective a.value b.value values in
      (λ i. record { key = key i; value = value i } ∷ rest i, binaries)

-- The entries that sort to one list are the same.
perm-of_sort_by :
    {A : Type 0} (key : A → String) (xs ys : List A) → sort_by key xs ≡ sort_by key ys → Permᴰ xs ys
perm-of_sort_by key xs ys e =
    Permᴰ.trans (perm-sort_by key xs)
      (subst (λ l. Permᴰ l ys) (sym e) (Permᴰ.symm (perm-sort_by key ys)))

-- Two contents have one digest exactly when they have the same entries in both maps.
pub content_digest-eq_iff :
    (utf8 : String → List ℕ) (sha256_hex : List ℕ → String) (c d : Content)
    → IsFaithfulHash utf8 sha256_hex
    → HasUniqueKeys c
    → (content_digest utf8 sha256_hex c ≡ content_digest utf8 sha256_hex d) ↔ SameContent c d
unfolding content_digest
content_digest-eq_iff utf8 sha256_hex c d faithful unique =
    let data_key = λ (x : Datum). x.key in
    let binary_key = λ (x : BinaryDatum). x.key in
    (
      λ e.
          let (datas, binaries) =
            write_data-injective utf8 faithful.utf8_injective _ _ _ _
              (faithful.no_collision _ _ e) in
          record {
            data_entries = perm-of_sort_by data_key c.data_entries d.data_entries datas;
            binary_entries = perm-of_sort_by binary_key c.binary_entries d.binary_entries binaries;
          },
      λ same i. sha256_hex (
          write_data utf8 (sort_by-perm data_key same.data_entries unique.data_entry i) (
            write_binary utf8 (sort_by-perm binary_key same.binary_entries unique.binary_entry i))),
    )
