-- ===== src/Compiler/Names.antt =====
-- The names that the compiler emits: their length, that each Agent has one, and that no two Agents share
-- one.
use assayd.Base.{
  ℕ, zero, suc, ◌+◌, ◌-◌, ◌≡◌, ◌≢◌, ◌≤◌, ◌<◌, refl, sym, ap, ◌∙◌, subst, ◌⊎◌, inl, inr, true, false,
  ◌&&◌, Option, none, some, [], ◌∷◌, ◌++◌, arith, length, take, length-append, leb, leb→le,
  Bool-cases, is_some, Char, code,
}
use assayd.Compiler.{
  Name, dash, concern_serving, concern_auth, is_dash, is_empty, trim_right, name_tail, hash_hex,
  hashed_name, keeps_nothing, emitted_name, serving_route_name, auth_policy_name,
}

pub trim_right-le : (name : Name) → length (trim_right name) ≤ length name
unfolding trim_right
trim_right-le [] = omega arith
trim_right-le (c ∷ cs) = elim (Bool-cases (is_empty (trim_right cs) && is_dash c)) [
  | inl e ↦ rw e (omega arith)
  | inr e ↦ rw e (omega (arith, trim_right-le cs))
]

pub length-take :
    (k : ℕ) (name : Name) → (length (take k name) ≤ k) × (length (take k name) ≤ length name)
length-take zero name = (omega arith, omega arith)
length-take (suc k) [] = (omega arith, omega arith)
length-take (suc k) (c ∷ cs) = let (a, b) = length-take k cs in (omega (arith, a), omega (arith, b))

pub length-take_all : (k : ℕ) (name : Name) → k ≤ length name → length (take k name) ≡ k
length-take_all zero name le = omega arith
length-take_all (suc k) [] le = absurd (omega (arith, le))
length-take_all (suc k) (c ∷ cs) le = omega (arith, length-take_all k cs (omega (arith, le)))

abbrev or_nil : Option Name → Name
or_nil none = []
or_nil (some name) = name

none-some : {name : Name} → none ≢ some name
none-some q = absurd (ground (arith, ap is_some q))

abbrev tail_of : Name → Name
tail_of [] = []
tail_of (c ∷ cs) = cs

abbrev head_or : Char → Name → Char
head_or d [] = d
head_or d (c ∷ cs) = c

-- Two texts that end in as many characters are equal part by part.
pub append_split :
    (xs ys zs ws : Name) → length zs ≡ length ws → xs ++ zs ≡ ys ++ ws → (xs ≡ ys) × (zs ≡ ws)
append_split [] [] zs ws l q = (refl, q)
append_split [] (y ∷ ys) zs ws l q =
    absurd (omega (arith, l, ap length q, length-append (y ∷ ys) ws))
append_split (x ∷ xs) [] zs ws l q =
    absurd (omega (arith, l, ap length q, length-append (x ∷ xs) zs))
append_split (x ∷ xs) (y ∷ ys) zs ws l q =
    let (same, rest) = append_split xs ys zs ws l (ap tail_of q) in
    let head : x ≡ y = ap (head_or x) q in (cc, rest)

-- The code of the last character.
abbrev last_code : Name → ℕ
last_code [] = 0
last_code (c ∷ []) = code c
last_code (c ∷ d ∷ ds) = last_code (d ∷ ds)

last_code-append :
    (xs : Name) (y : Char) (ys : Name) → last_code (xs ++ (y ∷ ys)) ≡ last_code (y ∷ ys)
last_code-append [] y ys = refl
last_code-append (x ∷ []) y ys = refl
last_code-append (x ∷ w ∷ xs) y ys = last_code-append (w ∷ xs) y ys

length-pos : (ys : Name) → 0 < last_code ys → 0 < length ys
length-pos [] p = absurd (omega (arith, p))
length-pos (y ∷ ys) p = omega arith

last_code-end : (xs ys : Name) → 0 < length ys → last_code (xs ++ ys) ≡ last_code ys
last_code-end xs [] p = absurd (omega (arith, p))
last_code-end xs (y ∷ ys) p = last_code-append xs y ys

module _ (hash : Name → Name) where
  hashed_name-le :
      (name tail : Name) → keeps_nothing tail ≡ false → length (hashed_name hash name tail) ≤ 63
  unfolding hashed_name
  hashed_name-le name tail k =
      let keep = 63 - length tail - 1 - hash_hex in
      let digits = take hash_hex (hash (name ++ tail)) in
      let fits : length tail + 1 + hash_hex + 1 ≤ 63 = ground (arith, k) in
      omega (
        arith,
        fits,
        trim_right-le (take keep name),
        (length-take keep name).0,
        (length-take hash_hex (hash (name ++ tail))).0,
        length-append (trim_right (take keep name)) (tail ++ (dash ++ digits)),
        length-append tail (dash ++ digits),
        length-append dash digits,
      )

  -- The name is whole, or there is none, or it is cut and hashed.
  emitted_name-cases :
      (name concern rev : Name)
      → let tail = name_tail concern rev in
        (length (name ++ tail) ≤ 63) × (emitted_name hash name concern rev ≡ some (name ++ tail))
        ⊎ ((keeps_nothing tail ≡ true) × (emitted_name hash name concern rev ≡ none))
        ⊎ ((keeps_nothing tail ≡ false)
            × (emitted_name hash name concern rev ≡ some (hashed_name hash name tail)))
  unfolding emitted_name
  emitted_name-cases name concern rev =
      let tail = name_tail concern rev in
      elim (Bool-cases (leb (length (name ++ tail)) 63)) [
        | inl e ↦ rw e (inl (leb→le _ _ e, refl))
        | inr e ↦ elim (Bool-cases (keeps_nothing tail)) [
          | inl k ↦ rw (e, k) (inr (inl (refl, refl)))
          | inr k ↦ rw (e, k) (inr (inr (refl, refl)))
        ]
      ]

  -- A name that the compiler emits has at most 63 characters.
  pub emitted_name-le :
      (name concern rev full : Name)
      → emitted_name hash name concern rev ≡ some full
      → length full ≤ 63
  emitted_name-le name concern rev full q = elim (emitted_name-cases name concern rev) [
    | inl (le, e) ↦ subst (λ n. length n ≤ 63) (ap or_nil (sym e ∙ q)) le
    | inr (inl (k, e)) ↦ absurd (none-some (sym e ∙ q))
    | inr (inr (k, e)) ↦
        subst (λ n. length n ≤ 63) (ap or_nil (sym e ∙ q))
          (hashed_name-le name (name_tail concern rev) k)
  ]

  emitted_name-is_some :
      (name concern rev : Name)
      → keeps_nothing (name_tail concern rev) ≡ false
      → is_some (emitted_name hash name concern rev) ≡ true
  emitted_name-is_some name concern rev f = elim (emitted_name-cases name concern rev) [
    | inl (le, e) ↦ rw e refl
    | inr (inl (k, e)) ↦ absurd (ground (arith, k, f))
    | inr (inr (k, e)) ↦ rw e refl
  ]

  -- Every Agent has a serving route's name and a policy's name.
  pub names-is_some :
      (agent : Name)
      → (is_some (serving_route_name hash agent) ≡ true)
        × (is_some (auth_policy_name hash agent) ≡ true)
  unfolding serving_route_name auth_policy_name name_tail
  names-is_some agent = (
    emitted_name-is_some agent concern_serving [] refl,
    emitted_name-is_some agent concern_auth [] refl,
  )

  -- What the name of a long Agent ends with.
  abbrev ending : Name → Name → Name
  ending name tail = dash ++ take hash_hex (hash (name ++ tail))

  -- A hashed name ends as its digits do, and so is no whole name.
  hashed_name-differs :
      (name other tail : Name)
      → ((x : Name) → hash_hex ≤ length (hash x))
      → ((x : Name) → last_code (take hash_hex (hash x)) < 103)
      → 103 ≤ last_code tail
      → other ++ tail ≢ hashed_name hash name tail
  unfolding hashed_name
  hashed_name-differs name other tail long hex ends q =
      let digits = take hash_hex (hash (name ++ tail)) in
      let count : length digits ≡ hash_hex =
        length-take_all hash_hex (hash (name ++ tail)) (long (name ++ tail)) in
      let kept = trim_right (take (63 - length tail - 1 - hash_hex) name) in
      let of_tail = last_code-end other tail (length-pos tail (omega (arith, ends))) in
      let of_digits = last_code-end dash digits (omega (arith, count)) in
      let of_end = last_code-end tail (dash ++ digits) (omega (arith, count)) in
      let of_all =
        last_code-end kept (tail ++ (dash ++ digits))
          (omega (arith, count, length-append tail (dash ++ digits))) in
      omega (arith, ends, hex (name ++ tail), of_tail, of_digits, of_end, of_all, ap last_code q)

  hashed_name-injective :
      (a b tail : Name)
      → ((x : Name) → hash_hex ≤ length (hash x))
      → (take hash_hex (hash (a ++ tail)) ≡ take hash_hex (hash (b ++ tail))
          → a ++ tail ≡ b ++ tail)
      → hashed_name hash a tail ≡ hashed_name hash b tail
      → a ≡ b
  unfolding hashed_name
  hashed_name-injective a b tail long free q =
      let same_length : length (take hash_hex (hash (a ++ tail)))
          ≡ length (take hash_hex (hash (b ++ tail))) =
        length-take_all hash_hex (hash (a ++ tail)) (long (a ++ tail))
        ∙ sym (length-take_all hash_hex (hash (b ++ tail)) (long (b ++ tail))) in
      let ends =
        (append_split _ _ (tail ++ ending a tail) (tail ++ ending b tail)
          (omega (
            arith,
            same_length,
            length-append tail (ending a tail),
            length-append tail (ending b tail),
          ))
          q).1 in
      let digits =
        ap tail_of
          (append_split tail tail (ending a tail) (ending b tail) (omega (arith, same_length))
            ends).1 in
      (append_split a b tail tail refl (free digits)).0

  -- Two Agents whose names for one concern are the same are the same: with a hash of at least 16 hex
  -- digits, whose first 16 tell apart the two full names, and a concern that ends in no hex digit and
  -- leaves room for a part of the name.
  pub emitted_name-injective :
      (a b concern : Name)
      → ((x : Name) → hash_hex ≤ length (hash x))
      → ((x : Name) → last_code (take hash_hex (hash x)) < 103)
      → (take hash_hex (hash (a ++ name_tail concern []))
            ≡ take hash_hex (hash (b ++ name_tail concern []))
          → a ++ name_tail concern [] ≡ b ++ name_tail concern [])
      → 103 ≤ last_code (name_tail concern [])
      → keeps_nothing (name_tail concern []) ≡ false
      → emitted_name hash a concern [] ≡ emitted_name hash b concern []
      → a ≡ b
  emitted_name-injective a b concern long hex free ends room q =
      let tail = name_tail concern [] in
      elim (emitted_name-cases a concern []) [
        | inl (_, e) ↦ elim (emitted_name-cases b concern []) [
          | inl (_, f) ↦ (append_split a b tail tail refl (ap or_nil (sym e ∙ q ∙ f))).0
          | inr (inl (k, _)) ↦ absurd (ground (arith, k, room))
          | inr (inr (_, f)) ↦
              absurd (hashed_name-differs b a tail long hex ends (ap or_nil (sym e ∙ q ∙ f)))
        ]
        | inr (inl (k, _)) ↦ absurd (ground (arith, k, room))
        | inr (inr (_, e)) ↦ elim (emitted_name-cases b concern []) [
          | inl (_, f) ↦
              absurd (hashed_name-differs a b tail long hex ends (ap or_nil (sym f ∙ sym q ∙ e)))
          | inr (inl (k, _)) ↦ absurd (ground (arith, k, room))
          | inr (inr (_, f)) ↦ hashed_name-injective a b tail long free (ap or_nil (sym e ∙ q ∙ f))
        ]
      ]
