-- ===== src/Providers/Select/Tests.antt =====
-- base.py on a small registry.
use open_video_trans.Common.{
  String, ◌≡◌, refl, inr, Bool, true, false, none, some, [], ◌∷◌, ok, err, ◌>>=◌, All, lookup,
}
use open_video_trans.Providers.Ladder.{auto_ladder, is_paid_provider}
use open_video_trans.Providers.Select.{
  Provider, Table, Registry, Infos, provider_unavailable, not_configured, paid_provider_blocked,
  index, build, select, select_auto, select_requested, auto_loop, register, list_providers, probe,
  merge_table, build_registry,
}
use open_video_trans.Providers.Select.RedLine.{
  IsFree, free_providers, first_willing, auto_answer, select_never_paid, select_auto_lem,
}
use open_video_trans.Providers.Select.Registry.{HasFlag, build_registry_agrees}

program : Unit {0}
unfolding select select_auto select_requested auto_loop build is_paid_provider register
    list_providers probe merge_table build_registry
program = tt

abbrev adapter : String → String → Bool → Bool → Provider
adapter name kind paid available = record {
  info = record {
    name = name;
    kind = kind;
    paid = paid;
    requires = "a key";
    languages = "";
    notes = "";
  };
  available = ok available;
}

abbrev registry : Registry
registry =
    ("asr", ("cloudflare", adapter "cloudflare" "asr" false false) ∷ [])
    ∷ (
      "mt",
      ("openai", adapter "openai" "mt" true true)
          ∷ ("groq", adapter "groq" "mt" false false)
          ∷ ("cloudflare", adapter "cloudflare" "mt" false true)
          ∷ [],
    )
    ∷ []

infos : Infos
infos =
    ("cloudflare", (adapter "cloudflare" "asr" false false).info)
    ∷ ("openai", (adapter "openai" "mt" true true).info)
    ∷ ("groq", (adapter "groq" "mt" false false).info)
    ∷ []

registry_built : build_registry registry ≡ ok infos
unfolding program infos
registry_built = refl

paid_blocked : select registry "mt" (some "openai") false ≡ err (paid_provider_blocked "openai")
unfolding program
paid_blocked = refl

requested_needs_key :
    select registry "mt" (some "groq") false ≡ err (provider_unavailable not_configured)
unfolding program
requested_needs_key = refl

auto_cloudflare : select registry "mt" (some "") true ≡ ok (adapter "cloudflare" "mt" false true)
unfolding program
auto_cloudflare = refl

auto_default : select registry "asr" none false ≡ ok (adapter "cloudflare" "asr" false false)
unfolding program
auto_default = refl

listed : list_providers registry "mt" ≡ ok ("openai" ∷ "groq" ∷ "cloudflare" ∷ [])
unfolding program
listed = refl

select_never_paid_example :
    IsFree (adapter "cloudflare" "mt" false true)
    × ((name : String) → some "" ≡ some name → is_paid_provider name ≡ false)
select_never_paid_example =
    select_never_paid registry "mt" (some "") true (adapter "cloudflare" "mt" false true)
      auto_cloudflare (inr (inr refl))

select_auto_lem_example : select registry "mt" none true ≡ (
    index "mt" (lookup "mt" auto_ladder) >>= λ ladder.
    index "mt" (lookup "mt" registry) >>= λ table.
    let free = free_providers table ladder in auto_answer free (first_willing free))
select_auto_lem_example = select_auto_lem registry "mt" true

build_registry_agrees_example :
    All
      (λ (k : String × Table). All (λ (e : String × Provider). HasFlag infos e.0 e.1.info.paid) k.1)
      registry
build_registry_agrees_example = build_registry_agrees registry infos registry_built
