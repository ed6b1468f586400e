-- ===== src/Revision/Sources.antt =====
-- What `EnvSources` lists: every source that the runtime reads, once, in order.
use assayd.Base.{
  str_le, ◌≡◌, refl, subst, sym, ◌↔◌, Bool, true, Option, none, some, List, [], ◌∷◌, ◌++◌, String,
  arith, eq_iff, All, Bool-cases, inl, inr, if◌then◌else◌,
}
use assayd.Base.Sort.{insert_by, sort_by, All-sort_by}
use assayd.Revision.{
  SourceKind, config_map, secret, SourceRef, to_text, same_ref, same_kind, EnvFrom, EnvVarSource,
  EnvVar, Runtime, seen, append_ref, add, add_some, add_env_from, add_env, env_sources,
  add_value_from,
}

-- Every reference that the runtime makes, in the order of its entries, repeated where it repeats them.
abbrev ref_list : SourceKind → Option String → List SourceRef
ref_list kind none = []
ref_list kind (some name) = record { kind = kind; name = name } ∷ []

abbrev refs_from : List EnvFrom → List SourceRef
refs_from [] = []
refs_from (f ∷ fs) =
    (ref_list config_map f.config_map_ref ++ ref_list secret f.secret_ref) ++ refs_from fs

abbrev refs_of_value : Option EnvVarSource → List SourceRef
refs_of_value none = []
refs_of_value (some v) =
    ref_list config_map v.config_map_key_ref ++ ref_list secret v.secret_key_ref

abbrev refs_env : List EnvVar → List SourceRef
refs_env [] = []
refs_env (e ∷ es) = refs_of_value e.value_from ++ refs_env es

abbrev pub references : Option Runtime → List SourceRef
references none = []
references (some rt) = refs_from rt.env_from ++ refs_env rt.env

same_kind_path : (a b : SourceKind) → same_kind a b ≡ true → a ≡ b
same_kind_path config_map config_map h = refl
same_kind_path config_map secret h = absurd (ground arith)
same_kind_path secret config_map h = absurd (ground arith)
same_kind_path secret secret h = refl

same_ref_path : (r s : SourceRef) → same_ref r s ≡ true → r ≡ s
same_ref_path r s h =
    let kinds = same_kind_path r.kind s.kind (ground arith) in
    let names = (eq_iff r.name s.name).0 (ground arith) in
    λ i. record { kind = kinds i; name = names i }

module _ (P : SourceRef → Type 0) where
  All-append : (xs ys : List SourceRef) → All P (xs ++ ys) ↔ (All P xs × All P ys)
  All-append [] ys = (λ h. (tt, h), λ h. h.1)
  All-append (x ∷ xs) ys = (
    λ h. ((h.0, ((All-append xs ys).0 h.1).0), ((All-append xs ys).0 h.1).1),
    λ h. (h.0.0, (All-append xs ys).1 (h.0.1, h.1)),
  )

  pub All-append_ref :
      (xs : List SourceRef) (r : SourceRef) → All P (append_ref xs r) ↔ (All P xs × P r)
  All-append_ref [] r = (λ h. (tt, h.0), λ h. (h.1, tt))
  All-append_ref (x ∷ xs) r = (
    λ h. ((h.0, ((All-append_ref xs r).0 h.1).0), ((All-append_ref xs r).0 h.1).1),
    λ h. (h.0.0, (All-append_ref xs r).1 (h.0.1, h.1)),
  )

  seen_holds : (xs : List SourceRef) (r : SourceRef) → seen r xs ≡ true → All P xs → P r
  seen_holds [] r h a = absurd (ground arith)
  seen_holds (x ∷ xs) r h a = elim (Bool-cases (same_ref r x)) [
    | inl e ↦ subst P (sym (same_ref_path r x e)) a.0
    | inr e ↦ seen_holds xs r (ground arith) a.1
  ]

  All-add : (xs : List SourceRef) (r : SourceRef) → All P (add xs r) ↔ (All P xs × P r)
  unfolding add
  All-add xs r = elim (Bool-cases (seen r xs)) [
    | inl e ↦ rw e (λ h. (h, seen_holds xs r e h), λ h. h.0)
    | inr e ↦ rw e (All-append_ref xs r)
  ]

  All-add_some :
      (kind : SourceKind) (xs : List SourceRef) (o : Option String)
      → All P (add_some kind xs o) ↔ (All P xs × All P (ref_list kind o))
  unfolding add_some
  All-add_some kind xs none = (λ h. (h, tt), λ h. h.0)
  All-add_some kind xs (some name) =
      let both = All-add xs (record { kind = kind; name = name }) in
      (λ h. ((both.0 h).0, ((both.0 h).1, tt)), λ h. both.1 (h.0, h.1.0))

  -- Two optional references, as an entry makes them.
  All-two :
      (xs : List SourceRef) (a b : Option String)
      → All P (add_some secret (add_some config_map xs a) b)
        ↔ (All P xs × All P (ref_list config_map a ++ ref_list secret b))
  All-two xs a b =
      let outer = All-add_some secret (add_some config_map xs a) b in
      let inner = All-add_some config_map xs a in
      let joined = All-append (ref_list config_map a) (ref_list secret b) in
      (
        λ h. ((inner.0 (outer.0 h).0).0, joined.1 ((inner.0 (outer.0 h).0).1, (outer.0 h).1)),
        λ h. outer.1 (inner.1 (h.0, (joined.0 h.1).0), (joined.0 h.1).1),
      )

  All-add_env_from :
      (xs : List SourceRef) (fs : List EnvFrom)
      → All P (add_env_from xs fs) ↔ (All P xs × All P (refs_from fs))
  unfolding add_env_from
  All-add_env_from xs [] = (λ h. (h, tt), λ h. h.0)
  All-add_env_from xs (f ∷ fs) =
      let two = All-two xs f.config_map_ref f.secret_ref in
      let rest =
        All-add_env_from (add_some secret (add_some config_map xs f.config_map_ref) f.secret_ref)
          fs in
      let joined =
        All-append (ref_list config_map f.config_map_ref ++ ref_list secret f.secret_ref)
          (refs_from fs) in
      (
        λ h. ((two.0 (rest.0 h).0).0, joined.1 ((two.0 (rest.0 h).0).1, (rest.0 h).1)),
        λ h. rest.1 (two.1 (h.0, (joined.0 h.1).0), (joined.0 h.1).1),
      )

  All-add_value_from :
      (xs : List SourceRef) (v : Option EnvVarSource)
      → All P (add_value_from xs v) ↔ (All P xs × All P (refs_of_value v))
  unfolding add_value_from
  All-add_value_from xs none = (λ h. (h, tt), λ h. h.0)
  All-add_value_from xs (some v) = All-two xs v.config_map_key_ref v.secret_key_ref

  All-add_env :
      (xs : List SourceRef) (es : List EnvVar)
      → All P (add_env xs es) ↔ (All P xs × All P (refs_env es))
  unfolding add_env
  All-add_env xs [] = (λ h. (h, tt), λ h. h.0)
  All-add_env xs (e ∷ es) =
      let one = All-add_value_from xs e.value_from in
      let rest = All-add_env (add_value_from xs e.value_from) es in
      let joined = All-append (refs_of_value e.value_from) (refs_env es) in
      (
        λ h. ((one.0 (rest.0 h).0).0, joined.1 ((one.0 (rest.0 h).0).1, (rest.0 h).1)),
        λ h. rest.1 (one.1 (h.0, (joined.0 h.1).0), (joined.0 h.1).1),
      )

  All-of_insert_by :
      (x : SourceRef) (ys : List SourceRef) → All P (insert_by to_text x ys) → P x × All P ys
  All-of_insert_by x [] h = h
  All-of_insert_by x (y ∷ ys) h =
      let split : Bool → Type 0 =
        λ b. All P (if b then x ∷ y ∷ ys else y ∷ insert_by to_text x ys) in
      elim (Bool-cases (str_le (to_text x) (to_text y))) [
        | inl e ↦ subst split e h
        | inr e ↦
            let h' = subst split e h in
            let both = All-of_insert_by x ys h'.1 in (both.0, (h'.0, both.1))
      ]

  All-of_sort_by : (xs : List SourceRef) → All P (sort_by to_text xs) → All P xs
  All-of_sort_by [] h = h
  All-of_sort_by (x ∷ xs) h =
      let both = All-of_insert_by x (sort_by to_text xs) h in (both.0, All-of_sort_by xs both.1)

  -- What holds of every source that is listed holds of every reference, and conversely: no reference is
  -- left out, and nothing else is listed.
  pub All-env_sources : (rt : Option Runtime) → All P (env_sources rt) ↔ All P (references rt)
  unfolding env_sources
  All-env_sources none = (λ h. h, λ h. h)
  All-env_sources (some rt) =
      let listed = add_env (add_env_from [] rt.env_from) rt.env in
      let from = All-add_env_from [] rt.env_from in
      let env = All-add_env (add_env_from [] rt.env_from) rt.env in
      let joined = All-append (refs_from rt.env_from) (refs_env rt.env) in
      (
        λ h.
            joined.1
              ((from.0 (env.0 (All-of_sort_by listed h)).0).1, (env.0 (All-of_sort_by listed h)).1),
        λ h. All-sort_by to_text P listed (env.1 (from.1 (tt, (joined.0 h).0), (joined.0 h).1)),
      )
