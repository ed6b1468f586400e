-- ===== src/Examples/Revisions.antt =====
-- A revision's sources at concrete inputs.
use assayd.Base.{
  ◌≡◌, refl, ◌↔◌, true, false, Option, none, some, List, [], ◌∷◌, String, All, is_some, ◌==◌,
  if◌then◌else◌,
}
use assayd.Revision.{
  SourceRef, config_map, secret, Runtime, env_sources, digest, add_value_from, has_unknown_env_arms,
  to_text,
}
use assayd.Revision.Sources.{references}
use assayd.Revision.Identity.{digest-is_some_iff}

-- One ConfigMap by envFrom, and one Secret by env, twice.
abbrev prompt : SourceRef
prompt = record { kind = config_map; name = "prompt" }

abbrev token : SourceRef
token = record { kind = secret; name = "token" }

abbrev pub runtime : Option Runtime
runtime = some (record {
  env_from = record { config_map_ref = some "prompt"; secret_ref = some "token" } ∷ [];
  env =
      record {
        name = "TOKEN";
        value_from = some (record {
          config_map_key_ref = none;
          secret_key_ref = some "token";
          has_field_ref = false;
          has_resource_field_ref = false;
        });
      }
      ∷ [];
})

listed_once : env_sources runtime ≡ prompt ∷ token ∷ []
unfolding env_sources to_text add_value_from
listed_once = refl

abbrev contents : SourceRef → Option String
contents r = if r.name == "prompt" then some "v1" else some "v2"

-- A projection, an encoding and a hash that keep what they are given.
abbrev keep_pairs : Option Runtime → List String → Option Runtime × List String
keep_pairs rt pairs = (rt, pairs)

has_digest_example :
    (is_some (digest (λ rt. rt) keep_pairs (λ bytes. bytes) runtime contents) ≡ true) ↔ (
      (has_unknown_env_arms runtime ≡ false)
      × All (λ (r : SourceRef). is_some (contents r) ≡ true) (references runtime))
has_digest_example = digest-is_some_iff (λ rt. rt) keep_pairs (λ bytes. bytes) runtime contents
