-- ===== src/RunNamespace/Naming.antt =====
-- internal/controller/runnamespace.go: `RunNamespaceName`, `MirrorName` and `BindingName`.
--
-- A name is the list of its characters, each a byte. `sha256` in hex is a parameter.
use assayd.Base.{
  ◌+◌, ◌-◌, ◌≡◌, ◌≤◌, refl, sym, ap, ◌∙◌, Bool, ◌||◌, ◌&&◌, inl, inr, [], ◌∷◌, ◌++◌, arith, length,
  take, drop, length-append, leb, leb→le, Bool-cases, Char, code, if◌then◌else◌, nat_eq,
}
use assayd.Compiler.{Name, dash, is_empty, trim_right, hash_hex}
use assayd.Compiler.Names.{trim_right-le, length-take, length-take_all, append_split}

-- "assayd-run-"
abbrev pub run_prefix : Name
run_prefix = "a" ∷ "s" ∷ "s" ∷ "a" ∷ "y" ∷ "d" ∷ "-" ∷ "r" ∷ "u" ∷ "n" ∷ "-" ∷ []

-- "assayd-mirror-"
abbrev pub mirror_prefix : Name
mirror_prefix =
    "a" ∷ "s" ∷ "s" ∷ "a" ∷ "y" ∷ "d" ∷ "-" ∷ "m" ∷ "i" ∷ "r" ∷ "r" ∷ "o" ∷ "r" ∷ "-" ∷ []

abbrev pub in_cut_set : Char → Bool
in_cut_set c = nat_eq (code c) 45 || nat_eq (code c) 46

-- strings.TrimRight(name, "-.")
unfoldable pub trim_dots : Name → Name
trim_dots [] = []
trim_dots (c ∷ cs) =
    let rest = trim_dots cs in if is_empty rest && in_cut_set c then [] else c ∷ rest

-- A long name is cut, and told apart by the hash of the whole.
abbrev pub suffixed : (Name → Name) → Name → Name → Name
suffixed hash kept source = kept ++ (dash ++ take hash_hex (hash source))

-- `RunNamespaceName`
unfoldable pub run_namespace_name : (Name → Name) → Name → Name
unfolding trim_right
run_namespace_name hash source =
    if leb (length run_prefix + length source) 63
    then run_prefix ++ source
    else run_prefix
      ++ suffixed hash (trim_right (take (63 - length run_prefix - 1 - hash_hex) source)) source

-- `MirrorName`
unfoldable pub mirror_name : (Name → Name) → Name → Name
unfolding trim_dots
mirror_name hash source =
    if leb (length mirror_prefix + length source) 253
    then mirror_prefix ++ source
    else mirror_prefix
      ++ suffixed hash (trim_dots (take (253 - length mirror_prefix - 17) source)) source

trim_dots-le : (name : Name) → length (trim_dots name) ≤ length name
unfolding trim_dots
trim_dots-le [] = omega arith
trim_dots-le (c ∷ cs) = elim (Bool-cases (is_empty (trim_dots cs) && in_cut_set c)) [
  | inl e ↦ rw e (omega arith)
  | inr e ↦ rw e (omega (arith, trim_dots-le cs))
]

module _ (hash : Name → Name) where
  suffixed-le :
      (kept source : Name) → length (suffixed hash kept source) ≤ length kept + 1 + hash_hex
  suffixed-le kept source =
      let digits = take hash_hex (hash source) in
      omega (
        arith,
        length-append kept (dash ++ digits),
        length-append dash digits,
        (length-take hash_hex (hash source)).0,
      )

  -- The name of a run namespace has at most 63 characters, and that of a mirror at most 253.
  pub names-le :
      (source : Name)
      → (length (run_namespace_name hash source) ≤ 63) × (length (mirror_name hash source) ≤ 253)
  unfolding run_namespace_name mirror_name
  names-le source = (
    elim (Bool-cases (leb (length run_prefix + length source) 63)) [
      | inl e ↦ rw e (omega (arith, leb→le _ _ e, length-append run_prefix source))
      | inr e ↦
          let kept = trim_right (take 35 source) in
          rw e (
            omega (
              arith,
              length-append run_prefix (suffixed hash kept source),
              suffixed-le kept source,
              trim_right-le (take 35 source),
              (length-take 35 source).0,
            ))
    ],
    elim (Bool-cases (leb (length mirror_prefix + length source) 253)) [
      | inl e ↦ rw e (omega (arith, leb→le _ _ e, length-append mirror_prefix source))
      | inr e ↦
          let kept = trim_dots (take 222 source) in
          rw e (
            omega (
              arith,
              length-append mirror_prefix (suffixed hash kept source),
              suffixed-le kept source,
              trim_dots-le (take 222 source),
              (length-take 222 source).0,
            ))
    ],
  )

  -- What a long name ends with tells its source.
  suffix-injective :
      (k l a b : Name)
      → ((x : Name) → hash_hex ≤ length (hash x))
      → (take hash_hex (hash a) ≡ take hash_hex (hash b) → a ≡ b)
      → run_prefix ++ suffixed hash k a ≡ run_prefix ++ suffixed hash l b
      → a ≡ b
  suffix-injective k l a b long free q =
      let count : (x : Name) → length (take hash_hex (hash x)) ≡ hash_hex =
        λ x. length-take_all hash_hex (hash x) (long x) in
      let da = take hash_hex (hash a) in
      let db = take hash_hex (hash b) in
      let digits : dash ++ da ≡ dash ++ db =
        (append_split k l (dash ++ da) (dash ++ db)
          (omega (arith, count a, count b, length-append dash da, length-append dash db))
          (ap (drop 11) q)).1 in
      free (ap (drop 1) digits)

  -- Two source namespaces whose run namespaces have one name, both cut or both whole, are the same: with a hash of at least 16 hex digits, whose first 16 tell the sources apart.
  pub run_namespace_name-injective :
      (a b : Name)
      → ((x : Name) → hash_hex ≤ length (hash x))
      → (take hash_hex (hash a) ≡ take hash_hex (hash b) → a ≡ b)
      → leb (length run_prefix + length a) 63 ≡ leb (length run_prefix + length b) 63
      → run_namespace_name hash a ≡ run_namespace_name hash b
      → a ≡ b
  unfolding run_namespace_name
  run_namespace_name-injective a b long free same q =
      elim (Bool-cases (leb (length run_prefix + length a) 63)) [
        | inl e ↦
            let whole_a : run_namespace_name hash a ≡ run_prefix ++ a = rw e refl in
            let whole_b : run_namespace_name hash b ≡ run_prefix ++ b = rw (sym same ∙ e) refl in
            ap (drop 11) (sym whole_a ∙ q ∙ whole_b)
        | inr e ↦
            let cut_a : run_namespace_name hash a
                ≡ run_prefix ++ suffixed hash (trim_right (take 35 a)) a =
              rw e refl in
            let cut_b : run_namespace_name hash b
                ≡ run_prefix ++ suffixed hash (trim_right (take 35 b)) b =
              rw (sym same ∙ e) refl in
            suffix-injective (trim_right (take 35 a)) (trim_right (take 35 b)) a b long free
              (sym cut_a ∙ q ∙ cut_b)
      ]
