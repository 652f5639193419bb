-- ===== src/Worker/Pipeline/Resolver/Tests.antt =====
-- The credentials and the resolver of pipeline.py on small inputs.
use open_video_trans.Common.{String, ◌≡◌, refl, true, false, none, some, List, [], ◌∷◌, ok, err}
use open_video_trans.Providers.Ladder.{is_paid_provider}
use open_video_trans.Providers.Select.{
  Provider, Registry, build, select, select_auto, select_requested, auto_loop,
}
use open_video_trans.Providers.Select.RedLine.{IsFree}
use open_video_trans.Worker.Pipeline.Stages.{sentinel}
use open_video_trans.Worker.Pipeline.Resolver.{
  Env, inject_provider_env, free_pool_spent, is_sentinel, free_pool_select,
}
use open_video_trans.Worker.Pipeline.Resolver.Guard.{free_pool_select_lem}

program : Unit {0}
unfolding inject_provider_env free_pool_select select select_auto select_requested auto_loop build
    is_paid_provider
program = tt

abbrev payload : List (String × Env)
payload =
    ("groq", ("apiKey", "k1") ∷ ("path", "/tmp") ∷ [])
    ∷ ("openai", ("apiKey", "k2") ∷ [])
    ∷ ("deepl", ("token", "k3") ∷ [])
    ∷ []

configured :
    inject_provider_env payload (("PATH", "/bin") ∷ []) []
    ≡ (("GROQ_API_KEY", "k1") ∷ ("PATH", "/bin") ∷ [], "groq" ∷ [])
unfolding program
configured = refl

abbrev groq : Provider
groq = record {
  info = record {
    name = "groq";
    kind = "mt";
    paid = false;
    requires = "";
    languages = "";
    notes = "";
  };
  available = ok true;
}

abbrev registry : Registry
registry = ("mt", ("groq", groq) ∷ []) ∷ []

chosen : (free_pool_select (select registry) none "mt" (some "groq") false).0 ≡ ok groq
unfolding program
chosen = refl

spent :
    free_pool_select (select registry) none "mt" (some sentinel) false
    ≡ (err (free_pool_spent "mt"), none)
unfolding program
spent = refl

free_pool_select_lem_example :
    IsFree groq
    × (is_sentinel (some "groq") ≡ false)
    × ((free_pool_select (select registry) none "mt" (some "groq") false).1
        ≡ some ("mt", some "groq"))
free_pool_select_lem_example = free_pool_select_lem registry none "mt" (some "groq") groq chosen
