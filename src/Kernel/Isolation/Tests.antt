-- ===== src/Kernel/Isolation/Tests.antt =====
-- isolation.py on small inputs. Over ASCII `str.upper` is `ascii_upper`.
use open_video_trans.Common.{
  String, ◌≡◌, refl, ◌-◌, ◌&&◌, ◌++◌, Bool, true, false, none, some, List, [], ◌∷◌, ok, err, leb,
  if◌then◌else◌, map, ◌>>=◌,
}
use open_video_trans.Common.Chars.{Text, codes, strip}
use open_video_trans.Providers.Ladder.{is_paid_provider}
use open_video_trans.Providers.Select.{
  Provider, Registry, build, select, select_auto, select_requested, auto_loop,
}
use open_video_trans.Providers.Select.RedLine.{IsFree}
use open_video_trans.Kernel.Isolation.{
  trailing_dot, illegal_character, reserved_name, safe_component, join_path, resolve, ensure_within,
  job_root, paid_pin_violation, pinned_select,
}
use open_video_trans.Kernel.Isolation.Roots.{job_root_lem, job_root_isolated}
use open_video_trans.Kernel.Isolation.Pin.{pinned_select_never_paid}

abbrev ascii_upper : Text → Text
ascii_upper s = map (λ c. if leb b'a' c && leb c b'z' then c - 32 else c) s

program : Unit {0}
unfolding safe_component strip join_path resolve ensure_within job_root pinned_select select
    select_auto select_requested auto_loop build is_paid_provider
program = tt

abbrev base : List Text
base = codes "srv" ∷ codes ".." ∷ codes "jobs" ∷ []

abbrev root_of_a : List Text
root_of_a = codes "jobs" ∷ codes "alice" ∷ codes "job-1" ∷ []

job_root_a : job_root ascii_upper base (codes "alice") (codes "job-1") ≡ ok root_of_a
unfolding program
job_root_a = refl

job_root_rejects :
    (job_root ascii_upper base (codes "alice.") (codes "1") ≡ err trailing_dot)
    × (job_root ascii_upper base (codes "alice") (codes "../bob") ≡ err illegal_character)
    × (job_root ascii_upper base (codes "alice") (codes "nul.txt") ≡ err reserved_name)
unfolding program
job_root_rejects = (refl, refl, refl)

job_root_lem_example : job_root ascii_upper base (codes "alice") (codes "job-1") ≡ (
    safe_component ascii_upper (codes "alice") >>= λ owner.
    safe_component ascii_upper (codes "job-1") >>= λ job. ok (resolve base ++ owner ∷ job ∷ []))
job_root_lem_example = job_root_lem ascii_upper base (codes "alice") (codes "job-1")

job_root_isolated_example : (codes "alice" ≡ codes "alice") × (codes "job-1" ≡ codes "job-1")
unfolding program
job_root_isolated_example =
    job_root_isolated ascii_upper base (codes "alice") (codes "job-1") (codes "alice")
      (codes "job-1") root_of_a root_of_a job_root_a job_root_a refl

abbrev provider : String → Bool → Bool → Provider
provider name paid available = record {
  info = record {
    name = name;
    kind = "mt";
    paid = paid;
    requires = "a key";
    languages = "";
    notes = "";
  };
  available = ok available;
}

abbrev registry : Registry
registry =
    ("asr", [])
    ∷ (
      "mt",
      ("openai", provider "openai" true true)
          ∷ ("groq", provider "groq" false false)
          ∷ ("deepl", provider "deepl" false true)
          ∷ [],
    )
    ∷ ("tts", [])
    ∷ []

auto_picks_deepl :
    pinned_select (select registry) "mt" none false ≡ ok (provider "deepl" false true)
unfolding program
auto_picks_deepl = refl

pin_refuses : pinned_select (select registry) "mt" (some "openai") true ≡ err paid_pin_violation
unfolding program
pin_refuses = refl

pinned_select_never_paid_example :
    IsFree (provider "deepl" false true)
    × ((name : String) → none ≡ some name → is_paid_provider name ≡ false)
pinned_select_never_paid_example =
    pinned_select_never_paid registry "mt" none false (provider "deepl" false true) auto_picks_deepl
