-- ===== src/Worker/Pipeline/Resolver.antt =====
-- `inject_provider_env` and `_FreePoolSelectResolver` of pipeline.py.
pub mod Guard
mod Tests
use open_video_trans.Common.{
  String, Bool, true, false, not, ◌&&◌, ◌||◌, ◌==◌, Option, none, some, List, [], ◌∷◌, ◌++◌,
  if◌then◌else◌, lookup, Result, ok, err,
}
use open_video_trans.Providers.Select.{Provider, SelectError}
use open_video_trans.Worker.Pipeline.Stages.{sentinel}

abbrev pub Env : Type 0
Env = List (String × String)

-- _PROVIDER_ENV_MAP
abbrev pub provider_env_map : List (String × Env)
provider_env_map =
    ("groq", ("apiKey", "GROQ_API_KEY") ∷ [])
    ∷ (
      "cloudflare",
      ("accountId", "CLOUDFLARE_ACCOUNT_ID") ∷ ("apiToken", "CLOUDFLARE_API_TOKEN") ∷ [],
    )
    ∷ ("deepl", ("apiKey", "DEEPL_API_KEY") ∷ [])
    ∷ []

-- The loop over the fields of one provider, for its part of the map: the environment, where a later
-- value of a name stands before an earlier one, and whether it has written.
abbrev pub write_field : Option String → String → Env × Bool → Env × Bool
write_field none value acc = acc
write_field (some env_name) value (env, wrote) = ((env_name, value) ∷ env, true)

abbrev pub write_fields : Env → Env → Env × Bool → Env × Bool
write_fields field_map [] acc = acc
write_fields field_map ((field, value) ∷ fields) acc =
    write_fields field_map fields (write_field (lookup field field_map) value acc)

abbrev pub configure : String → Env × Bool → List String → Env × List String
configure name (env, wrote) configured =
    (env, if wrote then configured ++ name ∷ [] else configured)

abbrev pub write_provider : Option Env → String → Env → Env → List String → Env × List String
write_provider none name fields env configured = (env, configured)
write_provider (some field_map) name fields env configured =
    configure name (write_fields field_map fields (env, false)) configured

-- The environment, and the configured names in the order of the payload, which the source sorts for
-- the log.
unfoldable pub inject_provider_env : List (String × Env) → Env → List String → Env × List String
inject_provider_env [] env configured = (env, configured)
inject_provider_env ((name, fields) ∷ providers) env configured =
    let (env', configured') =
      write_provider (lookup name provider_env_map) name fields env configured in
    inject_provider_env providers env' configured'

-- FreePoolExhausted, or what the wrapped resolver raises.
pub data ResolverError : Type 0 where
  free_pool_spent : String → ResolverError
  inner_raised : SelectError → ResolverError

-- `last_select`
abbrev pub LastSelect : Type 0
LastSelect = Option (String × Option String)

abbrev pub is_sentinel : Option String → Bool
is_sentinel none = false
is_sentinel (some requested) = requested == sentinel

abbrev pub wrap : Result SelectError Provider → Result ResolverError Provider
wrap (ok p) = ok p
wrap (err e) = err (inner_raised e)

-- `_FreePoolSelectResolver(inner).select(kind, requested, allow_paid)`
unfoldable pub free_pool_select :
    (String → Option String → Bool → Result SelectError Provider)
    → LastSelect
    → String
    → Option String
    → Bool
    → Result ResolverError Provider × LastSelect
free_pool_select inner last_select kind requested allow_paid =
    if is_sentinel requested
    then (err (free_pool_spent kind), last_select)
    else (wrap (inner kind requested allow_paid), some (kind, requested))
