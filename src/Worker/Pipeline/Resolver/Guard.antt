-- ===== src/Worker/Pipeline/Resolver/Guard.antt =====
-- What the resolver of pipeline.py lets through, and which variables the credentials reach.
use open_video_trans.Common.{
  String, ◌≡◌, refl, ap, ◌∙◌, inl, inr, Bool, true, false, ◌==◌, eq_iff, Option, none, some, List,
  [], ◌∷◌, lookup, contains, Result, ok, err, arith, Bool-cases, ok_inj, some_inj, subst,
}
use open_video_trans.Providers.Select.{Provider, SelectError, Registry, select}
use open_video_trans.Providers.Select.RedLine.{IsFree, select_never_paid}
use open_video_trans.Worker.Pipeline.Resolver.{
  Env, provider_env_map, write_field, write_fields, configure, write_provider, inject_provider_env,
  LastSelect, is_sentinel, wrap, free_pool_select,
}

-- The variables that the adapters read.
abbrev pub adapter_variables : List String
adapter_variables =
    "GROQ_API_KEY" ∷ "CLOUDFLARE_ACCOUNT_ID" ∷ "CLOUDFLARE_API_TOKEN" ∷ "DEEPL_API_KEY" ∷ []

wrap-eq-ok : (r : Result SelectError Provider) (p : Provider) → wrap r ≡ ok p → r ≡ ok p
wrap-eq-ok (ok q) p e = ap ok (ok_inj e)
wrap-eq-ok (err x) p e = cc

-- A provider that the resolver hands to the kernel without `allow_paid` is free, was not asked for
-- by the sentinel, and is what the next failure is attributed to.
pub free_pool_select_lem :
    (registry : Registry) (last_select : LastSelect) (kind : String) (requested : Option String)
    (p : Provider)
    → (free_pool_select (select registry) last_select kind requested false).0 ≡ ok p
    → IsFree p
      × (is_sentinel requested ≡ false)
      × ((free_pool_select (select registry) last_select kind requested false).1
          ≡ some (kind, requested))
unfolding free_pool_select
free_pool_select_lem registry last_select kind requested p e =
    elim (Bool-cases (is_sentinel requested)) [
      | inl spent ↦ absurd (ground (arith, rw (spent, free_pool_select) at e))
      | inr real ↦
          let inner =
            wrap-eq-ok (select registry kind requested false) p
              (rw (real, free_pool_select) at e) in
          (
            (select_never_paid registry kind requested false p inner (inl refl)).0,
            real,
            rw (real, free_pool_select) refl,
          )
    ]

abbrev IsVariable : String → Type 0
IsVariable v = contains v adapter_variables ≡ true

-- A part of the map writes only the adapters' variables.
abbrev OnlyVariables : Env → Type 0
OnlyVariables field_map =
    (field variable : String)
    → lookup field field_map ≡ some variable
    → contains variable adapter_variables ≡ true

write_field-lookup :
    (variable : Option String) (value n : String) (acc : Env × Bool)
    → ((v : String) → variable ≡ some v → contains v adapter_variables ≡ true)
    → contains n adapter_variables ≡ false
    → lookup n (write_field variable value acc).0 ≡ lookup n acc.0
write_field-lookup none value n acc only other = refl
write_field-lookup (some v) value n (env, wrote) only other =
    let mine = only v refl in
    elim (Bool-cases (n == v)) [
      | inl same ↦
          let e : n ≡ v = (eq_iff n v).0 same in absurd (ground (arith, rw e at other, mine))
      | inr apart ↦ ground (arith, apart)
    ]

write_fields-lookup :
    (field_map fields : Env) (n : String) (acc : Env × Bool)
    → OnlyVariables field_map
    → contains n adapter_variables ≡ false
    → lookup n (write_fields field_map fields acc).0 ≡ lookup n acc.0
write_fields-lookup field_map [] n acc only other = refl
write_fields-lookup field_map ((field, value) ∷ fields) n acc only other =
    write_fields-lookup field_map fields n (write_field (lookup field field_map) value acc) only
      other
    ∙ write_field-lookup (lookup field field_map) value n acc (only field) other

configure_env :
    (name : String) (acc : Env × Bool) (configured : List String)
    → (configure name acc configured).0 ≡ acc.0
configure_env name (env, wrote) configured = refl

groq_variable : OnlyVariables (("apiKey", "GROQ_API_KEY") ∷ [])
groq_variable field v f = elim (Bool-cases (field == "apiKey")) [
  | inl key ↦ subst IsVariable (some_inj (rw (key, lookup) at f)) refl
  | inr other ↦ absurd (ground (arith, f, other))
]

cloudflare_variable :
    OnlyVariables
      (("accountId", "CLOUDFLARE_ACCOUNT_ID") ∷ ("apiToken", "CLOUDFLARE_API_TOKEN") ∷ [])
cloudflare_variable field v f = elim (Bool-cases (field == "accountId")) [
  | inl account ↦ subst IsVariable (some_inj (rw (account, lookup) at f)) refl
  | inr other ↦ elim (Bool-cases (field == "apiToken")) [
    | inl token ↦ subst IsVariable (some_inj (rw (other, token, lookup) at f)) refl
    | inr neither ↦ absurd (ground (arith, f, other, neither))
  ]
]

deepl_variable : OnlyVariables (("apiKey", "DEEPL_API_KEY") ∷ [])
deepl_variable field v f = elim (Bool-cases (field == "apiKey")) [
  | inl key ↦ subst IsVariable (some_inj (rw (key, lookup) at f)) refl
  | inr other ↦ absurd (ground (arith, f, other))
]

provider_env_map-OnlyVariables :
    (name : String) (field_map : Env)
    → lookup name provider_env_map ≡ some field_map
    → OnlyVariables field_map
provider_env_map-OnlyVariables name field_map e = elim (Bool-cases (name == "groq")) [
  | inl groq ↦
      subst OnlyVariables (some_inj (rw (groq, lookup) at e)) (λ field v f. groq_variable field v f)
  | inr other ↦ elim (Bool-cases (name == "cloudflare")) [
    | inl cloudflare ↦
        subst OnlyVariables (some_inj (rw (other, cloudflare, lookup) at e))
          (λ field v f. cloudflare_variable field v f)
    | inr another ↦ elim (Bool-cases (name == "deepl")) [
      | inl deepl ↦
          subst OnlyVariables (some_inj (rw (other, another, deepl, lookup) at e))
            (λ field v f. deepl_variable field v f)
      | inr none_left ↦ absurd (ground (arith, e, other, another, none_left))
    ]
  ]
]

write_provider-lookup :
    (part : Option Env) (name n : String) (fields env : Env) (configured : List String)
    → ((field_map : Env) → part ≡ some field_map → OnlyVariables field_map)
    → contains n adapter_variables ≡ false
    → lookup n (write_provider part name fields env configured).0 ≡ lookup n env
write_provider-lookup none name n fields env configured only other = refl
write_provider-lookup (some field_map) name n fields env configured only other =
    ap (lookup n) (configure_env name (write_fields field_map fields (env, false)) configured)
    ∙ write_fields-lookup field_map fields n (env, false) (only field_map refl) other

-- Whatever payload the control plane sends, it changes no variable but those that the adapters of
-- the free providers read.
pub inject_provider_env-lookup :
    (providers : List (String × Env)) (env : Env) (configured : List String) (n : String)
    → contains n adapter_variables ≡ false
    → lookup n (inject_provider_env providers env configured).0 ≡ lookup n env
unfolding inject_provider_env
inject_provider_env-lookup [] env configured n other = refl
inject_provider_env-lookup ((name, fields) ∷ providers) env configured n other =
    let after = write_provider (lookup name provider_env_map) name fields env configured in
    inject_provider_env-lookup providers after.0 after.1 n other
    ∙ write_provider-lookup (lookup name provider_env_map) name n fields env configured
        (provider_env_map-OnlyVariables name) other
