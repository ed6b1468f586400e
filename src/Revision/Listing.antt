-- ===== src/Revision/Listing.antt =====
-- The order of what `EnvSources` lists.
use assayd.Base.{
  ◌≡◌, refl, false, Option, none, some, List, [], ◌∷◌, String, arith, eq_iff, All, Bool-cases, inl,
  inr, str_le,
}
use assayd.Base.Sort.{
  insert_by, sort_by, IsSortedBy, sort_by-IsSortedBy, All-insert_by, All-sort_by,
}
use assayd.Revision.{
  SourceKind, config_map, secret, SourceRef, to_text, same_ref, same_kind, EnvFrom, EnvVarSource,
  EnvVar, Runtime, seen, append_ref, add, add_some, add_env_from, add_env, env_sources,
  add_value_from,
}
use assayd.Revision.Sources.{All-append_ref}

-- No source is listed twice.
abbrev pub IsDistinct : List SourceRef → Type 0
IsDistinct [] = Unit
IsDistinct (x ∷ xs) = All (λ y. same_ref x y ≡ false) xs × IsDistinct xs

same_kind_comm : (a b : SourceKind) → same_kind a b ≡ same_kind b a
same_kind_comm config_map config_map = refl
same_kind_comm config_map secret = refl
same_kind_comm secret config_map = refl
same_kind_comm secret secret = refl

same_ref_comm : (r s : SourceRef) → same_ref r s ≡ false → same_ref s r ≡ false
same_ref_comm r s h =
    ground (arith, eq_iff r.name s.name, eq_iff s.name r.name, same_kind_comm r.kind s.kind)

append_ref-IsDistinct :
    (xs : List SourceRef) (r : SourceRef)
    → seen r xs ≡ false
    → IsDistinct xs
    → IsDistinct (append_ref xs r)
append_ref-IsDistinct [] r h d = (tt, tt)
append_ref-IsDistinct (x ∷ xs) r h d = (
  (All-append_ref (λ y. same_ref x y ≡ false) xs r).1 (d.0, same_ref_comm r x (ground arith)),
  append_ref-IsDistinct xs r (ground arith) d.1,
)

add-IsDistinct : (xs : List SourceRef) (r : SourceRef) → IsDistinct xs → IsDistinct (add xs r)
unfolding add
add-IsDistinct xs r d = elim (Bool-cases (seen r xs)) [
  | inl e ↦ rw e d
  | inr e ↦ rw e (append_ref-IsDistinct xs r e d)
]

add_some-IsDistinct :
    (kind : SourceKind) (xs : List SourceRef) (o : Option String)
    → IsDistinct xs
    → IsDistinct (add_some kind xs o)
unfolding add_some
add_some-IsDistinct kind xs none d = d
add_some-IsDistinct kind xs (some name) d =
    add-IsDistinct xs (record { kind = kind; name = name }) d

add_env_from-IsDistinct :
    (xs : List SourceRef) (fs : List EnvFrom) → IsDistinct xs → IsDistinct (add_env_from xs fs)
unfolding add_env_from
add_env_from-IsDistinct xs [] d = d
add_env_from-IsDistinct xs (f ∷ fs) d =
    let first = add_some config_map xs f.config_map_ref in
    add_env_from-IsDistinct (add_some secret first f.secret_ref) fs (
      add_some-IsDistinct secret first f.secret_ref
        (add_some-IsDistinct config_map xs f.config_map_ref d))

add_value_from-IsDistinct :
    (xs : List SourceRef) (v : Option EnvVarSource)
    → IsDistinct xs
    → IsDistinct (add_value_from xs v)
unfolding add_value_from
add_value_from-IsDistinct xs none d = d
add_value_from-IsDistinct xs (some v) d =
    let first = add_some config_map xs v.config_map_key_ref in
    add_some-IsDistinct secret first v.secret_key_ref
      (add_some-IsDistinct config_map xs v.config_map_key_ref d)

add_env-IsDistinct :
    (xs : List SourceRef) (es : List EnvVar) → IsDistinct xs → IsDistinct (add_env xs es)
unfolding add_env
add_env-IsDistinct xs [] d = d
add_env-IsDistinct xs (e ∷ es) d =
    add_env-IsDistinct (add_value_from xs e.value_from) es
      (add_value_from-IsDistinct xs e.value_from d)

insert_by-IsDistinct :
    (x : SourceRef) (ys : List SourceRef)
    → All (λ y. same_ref x y ≡ false) ys
    → IsDistinct ys
    → IsDistinct (insert_by to_text x ys)
insert_by-IsDistinct x [] a d = (tt, tt)
insert_by-IsDistinct x (y ∷ ys) a d = elim (Bool-cases (str_le (to_text x) (to_text y))) [
  | inl e ↦ rw e (a, d)
  | inr e ↦ rw e (
    All-insert_by to_text (λ z. same_ref y z ≡ false) x ys (same_ref_comm x y a.0) d.0,
    insert_by-IsDistinct x ys a.1 d.1,
  )
]

sort_by-IsDistinct : (xs : List SourceRef) → IsDistinct xs → IsDistinct (sort_by to_text xs)
sort_by-IsDistinct [] d = d
sort_by-IsDistinct (x ∷ xs) d =
    insert_by-IsDistinct x (sort_by to_text xs)
      (All-sort_by to_text (λ y. same_ref x y ≡ false) xs d.0) (sort_by-IsDistinct xs d.1)

-- The list of sources is in the order of their texts, and no source is listed twice.
pub env_sources-IsSortedBy :
    (rt : Option Runtime) → IsSortedBy to_text (env_sources rt) × IsDistinct (env_sources rt)
unfolding env_sources
env_sources-IsSortedBy none = (tt, tt)
env_sources-IsSortedBy (some rt) =
    let listed = add_env (add_env_from [] rt.env_from) rt.env in
    (
      sort_by-IsSortedBy to_text listed,
      sort_by-IsDistinct listed (
          add_env-IsDistinct (add_env_from [] rt.env_from) rt.env
            (add_env_from-IsDistinct [] rt.env_from tt)),
    )
