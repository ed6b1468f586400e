-- ===== src/Revision.antt =====
-- internal/revision: the sources that a revision's digest covers (sources.go), and when a digest exists
-- (`Digest` and `Hash` of revision.go).
--
-- encoding/json and SHA-256 are parameters. So is `project`, which is not modelled: it is a function of the
-- spec's runtime, with the rest of the spec fixed, and nothing is assumed of it. A name is only compared,
-- so an env entry is its references.
pub mod Content
pub mod Sources
pub mod Identity
pub mod Listing
use assayd.Base.{
  ℕ, Bool, true, false, not, ◌&&◌, ◌||◌, Option, none, some, List, [], ◌∷◌, ◌==◌, if◌then◌else◌,
  is_some, map,
}
use Prim.Native.String.{String, ◌++◌}
use assayd.Base.Sort.{sort_by}

-- SourceRef.Kind: "ConfigMap" or "Secret".
pub data SourceKind : Type 0 where
  config_map secret : SourceKind

pub record SourceRef : Type 0 where
  pub kind : SourceKind
  pub name : String

abbrev kind_prefix : SourceKind → String
kind_prefix config_map = "ConfigMap/"
kind_prefix secret = "Secret/"

-- `SourceRef.String`
unfoldable pub to_text : SourceRef → String
to_text r = kind_prefix r.kind ++ r.name

abbrev pub same_kind : SourceKind → SourceKind → Bool
same_kind config_map config_map = true
same_kind secret secret = true
same_kind _ _ = false

-- `==` on two SourceRefs.
abbrev pub same_ref : SourceRef → SourceRef → Bool
same_ref r s = same_kind r.kind s.kind && r.name == s.name

pub record EnvFrom : Type 0 where
  pub config_map_ref : Option String
  pub secret_ref : Option String

pub record EnvVarSource : Type 0 where
  pub config_map_key_ref : Option String
  pub secret_key_ref : Option String
  pub has_field_ref : Bool
  pub has_resource_field_ref : Bool

pub record EnvVar : Type 0 where
  pub name : String
  pub value_from : Option EnvVarSource

pub record Runtime : Type 0 where
  pub env_from : List EnvFrom
  pub env : List EnvVar

abbrev pub seen : SourceRef → List SourceRef → Bool
seen r [] = false
seen r (s ∷ out) = same_ref r s || seen r out

abbrev pub append_ref : List SourceRef → SourceRef → List SourceRef
append_ref [] r = r ∷ []
append_ref (s ∷ out) r = s ∷ append_ref out r

-- `add`
unfoldable pub add : List SourceRef → SourceRef → List SourceRef
add out r = if seen r out then out else append_ref out r

unfoldable pub add_some : SourceKind → List SourceRef → Option String → List SourceRef
unfolding add
add_some kind out none = out
add_some kind out (some name) = add out (record { kind = kind; name = name })

unfoldable pub add_env_from : List SourceRef → List EnvFrom → List SourceRef
unfolding add_some
add_env_from out [] = out
add_env_from out (f ∷ fs) =
    add_env_from (add_some secret (add_some config_map out f.config_map_ref) f.secret_ref) fs

unfoldable pub add_value_from : List SourceRef → Option EnvVarSource → List SourceRef
unfolding add_some
add_value_from out none = out
add_value_from out (some v) =
    add_some secret (add_some config_map out v.config_map_key_ref) v.secret_key_ref

unfoldable pub add_env : List SourceRef → List EnvVar → List SourceRef
unfolding add_some
add_env out [] = out
add_env out (e ∷ es) = add_env (add_value_from out e.value_from) es

-- `EnvSources`
unfoldable pub env_sources : Option Runtime → List SourceRef
unfolding add_env add_env_from
env_sources none = []
env_sources (some rt) = sort_by to_text (add_env (add_env_from [] rt.env_from) rt.env)

-- An entry that `UnknownEnvArms` reports.
abbrev unknown_env_from : EnvFrom → Bool
unknown_env_from f = not (is_some f.config_map_ref) && not (is_some f.secret_ref)

abbrev unknown_value_from : Option EnvVarSource → Bool
unknown_value_from none = false
unknown_value_from (some v) = not (
    is_some v.config_map_key_ref
    || (is_some v.secret_key_ref || (v.has_field_ref || v.has_resource_field_ref)))

abbrev pub any_unknown_from : List EnvFrom → Bool
any_unknown_from [] = false
any_unknown_from (f ∷ fs) = unknown_env_from f || any_unknown_from fs

abbrev pub any_unknown_env : List EnvVar → Bool
any_unknown_env [] = false
any_unknown_env (e ∷ es) = unknown_value_from e.value_from || any_unknown_env es

-- `UnknownEnvArms`: whether it reports an entry.
unfoldable pub has_unknown_env_arms : Option Runtime → Bool
has_unknown_env_arms none = false
has_unknown_env_arms (some rt) = any_unknown_from rt.env_from || any_unknown_env rt.env

-- The loop of `MissingSources`.
unfoldable pub unresolved : (SourceRef → Option String) → List SourceRef → List SourceRef
unresolved resolved [] = []
unresolved resolved (r ∷ rs) =
    let rest = unresolved resolved rs in if is_some (resolved r) then rest else r ∷ rest

-- `MissingSources`
unfoldable pub missing_sources : Option Runtime → (SourceRef → Option String) → List SourceRef
unfolding env_sources unresolved
missing_sources rt resolved = unresolved resolved (env_sources rt)

abbrev pub or_empty : Option String → String
or_empty none = ""
or_empty (some s) = s

-- The pairs that `encode` folds in.
unfoldable pub source_digests : (SourceRef → Option String) → List SourceRef → List String
unfolding to_text
source_digests resolved [] = []
source_digests resolved (r ∷ rs) =
    (to_text r ++ "=" ++ or_empty (resolved r)) ∷ source_digests resolved rs

abbrev pub no_refs : List SourceRef → Bool
no_refs [] = true
no_refs (_ ∷ _) = false

module _ {Behaviour Bytes Hash : Type 0} (project : Option Runtime → Behaviour)
    (marshal : Behaviour → List String → Bytes) (sha256 : Bytes → Hash) where
  -- `encode`
  unfoldable pub encode : Option Runtime → (SourceRef → Option String) → Bytes
  unfolding source_digests
  encode rt resolved = marshal (project rt) (source_digests resolved (env_sources rt))

  -- `Digest`; `none` is a refusal.
  unfoldable pub digest : Option Runtime → (SourceRef → Option String) → Option Hash
  unfolding has_unknown_env_arms missing_sources encode
  digest rt resolved =
      if has_unknown_env_arms rt
      then none
      else if no_refs (missing_sources rt resolved)
      then some (sha256 (encode rt resolved))
      else none
