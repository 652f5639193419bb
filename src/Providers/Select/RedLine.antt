-- ===== src/Providers/Select/RedLine.antt =====
-- The selector of base.py never hands out a paid provider.
use open_video_trans.Common.{
  inl, inr, All, String, ◌≡◌, refl, sym, ◌∙◌, ◌⊎◌, Bool, true, false, not, ◌||◌, Option, none, some,
  List, [], ◌∷◌, ◌==◌, eq_iff, Result, ok, err, ◌>>=◌, arith, if◌then◌else◌, lookup, Option-cases,
  Bool-cases, >>=-eq-ok, bind_congr,
}
use open_video_trans.Providers.Ladder.{auto_ladder, is_paid_provider}
use open_video_trans.Providers.Select.{
  Provider, Table, Registry, SelectError, availability_raised, provider_unavailable,
  no_free_registered, index, check_available, select_requested, or_default, default_or_raise,
  auto_loop, select_auto, select,
}

-- The registered free providers of a ladder, in its order.
unfoldable pub free_providers : Table → List String → List Provider
free_providers table [] = []
free_providers table (name ∷ ladder) = elim (lookup name table) [
  | none ↦ free_providers table ladder
  | some prov ↦
      let rest = free_providers table ladder in
      if is_paid_provider name || prov.info.paid then rest else prov ∷ rest
]

-- The first provider that does not answer that it is unavailable.
abbrev pub denies : Result (Unit {0}) Bool → Bool
denies (ok available) = not available
denies (err raised) = false

abbrev pub first_willing : List Provider → Option Provider
first_willing [] = none
first_willing (p ∷ ps) = if denies p.available then first_willing ps else some p

-- The search ends at it, with an error if its probe raised.
abbrev pub reached : Provider → Result (Unit {0}) Bool → Result SelectError Provider
reached p (ok available) = ok p
reached p (err raised) = err availability_raised

-- What AUTO mode should answer for the free providers in their order.
abbrev pub auto_answer : List Provider → Option Provider → Result SelectError Provider
auto_answer free (some p) = reached p p.available
auto_answer [] none = err (provider_unavailable no_free_registered)
auto_answer (p ∷ ps) none = ok p

-- The loop, over the free providers alone.
unfoldable free_loop : Option Provider → List Provider → Result SelectError Provider
free_loop default [] = default_or_raise default
free_loop default (p ∷ ps) =
    let rest = free_loop (or_default default p) ps in
    check_available p.available >>= λ avail. if avail then ok p else rest

auto_loop_lem :
    (table : Table) (default : Option Provider) (ladder : List String)
    → auto_loop table default ladder ≡ free_loop default (free_providers table ladder)
unfolding auto_loop free_providers free_loop
auto_loop_lem table default [] = refl
auto_loop_lem table default (name ∷ ladder) = elim (Option-cases (lookup name table)) [
  | inl absent ↦ rw (absent, auto_loop, free_providers) (auto_loop_lem table default ladder)
  | inr (prov, e) ↦
      rw (e, auto_loop, free_providers)
        (ground (
          arith,
          auto_loop_lem table default ladder,
          auto_loop_lem table (or_default default prov) ladder,
        ))
]

probe_lem :
    (free : List Provider) (p : Provider) (ps : List Provider) (rest : Result SelectError Provider)
    (probed : Result (Unit {0}) Bool)
    → p.available ≡ probed
    → rest ≡ auto_answer free (first_willing ps)
    → (check_available p.available >>= λ avail. if avail then ok p else rest)
      ≡ auto_answer free (first_willing (p ∷ ps))
probe_lem free p ps rest (ok true) e h = rw e refl
probe_lem free p ps rest (ok false) e h = rw e h
probe_lem free p ps rest (err raised) e h = rw e refl

kept_default_lem :
    (d : Provider) (before ps : List Provider)
    → free_loop (some d) ps ≡ auto_answer (d ∷ before) (first_willing ps)
unfolding free_loop
kept_default_lem d before [] = refl
kept_default_lem d before (p ∷ ps) =
    probe_lem (d ∷ before) p ps _ p.available refl (kept_default_lem d before ps)

free_loop_lem : (ps : List Provider) → free_loop none ps ≡ auto_answer ps (first_willing ps)
unfolding free_loop
free_loop_lem [] = refl
free_loop_lem (p ∷ ps) = probe_lem (p ∷ ps) p ps _ p.available refl (kept_default_lem p ps ps)

-- AUTO mode asks the registered free providers of the kind's ladder in its order. It returns the
-- first that does not deny that it is available, or raises if the probe of that one raises; where
-- all deny it returns the first of them, and where there is none it raises. `allow_paid` changes
-- nothing.
pub select_auto_lem :
    (registry : Registry) (kind : String) (allow_paid : Bool)
    → select registry kind none allow_paid ≡ (
        index kind (lookup kind auto_ladder) >>= λ ladder.
        index kind (lookup kind registry) >>= λ table.
        let free = free_providers table ladder in auto_answer free (first_willing free))
unfolding select select_auto
select_auto_lem registry kind allow_paid =
    bind_congr (index kind (lookup kind auto_ladder)) λ ladder.
      bind_congr (index kind (lookup kind registry))
        λ table. auto_loop_lem table none ladder ∙ free_loop_lem (free_providers table ladder)

abbrev pub IsFree : Provider → Type 0
IsFree p = p.info.paid ≡ false

All-if :
    (skipped : Bool) (prov : Provider) (rest : List Provider)
    → All IsFree rest
    → (skipped ≡ false → IsFree prov)
    → All IsFree (if skipped then rest else prov ∷ rest)
All-if true prov rest h free = h
All-if false prov rest h free = (free refl, h)

free_providers-IsFree :
    (table : Table) (ladder : List String) → All IsFree (free_providers table ladder)
unfolding free_providers
free_providers-IsFree table [] = tt
free_providers-IsFree table (name ∷ ladder) = elim (Option-cases (lookup name table)) [
  | inl absent ↦ rw (absent, free_providers) (free_providers-IsFree table ladder)
  | inr (prov, e) ↦
      let ih = free_providers-IsFree table ladder in
      rw (e, free_providers)
        (All-if (is_paid_provider name || prov.info.paid) prov _ ih (λ kept. ground arith))
]

or_default-IsFree :
    (default : Option Provider) (q : Provider)
    → ((d : Provider) → default ≡ some d → IsFree d)
    → IsFree q
    → (d : Provider) → or_default default q ≡ some d
    → IsFree d
or_default-IsFree none q hd hq d e = ground arith
or_default-IsFree (some x) q hd hq d e = hd d e

free_loop-IsFree :
    (default : Option Provider) (ps : List Provider) (p : Provider)
    → ((d : Provider) → default ≡ some d → IsFree d)
    → All IsFree ps
    → free_loop default ps ≡ ok p
    → IsFree p
unfolding free_loop
free_loop-IsFree none [] p hd h e = cc
free_loop-IsFree (some d) [] p hd h e = ground (arith, hd d)
free_loop-IsFree default (q ∷ ps) p hd h e =
    ground
      (arith, free_loop-IsFree (or_default default q) ps p (or_default-IsFree default q hd h.0) h.1)

select_auto-IsFree :
    (registry : Registry) (kind : String) (p : Provider)
    → select_auto registry kind ≡ ok p
    → IsFree p
unfolding select_auto
select_auto-IsFree registry kind p e =
    let (ladder, _, e1) = >>=-eq-ok (index kind (lookup kind auto_ladder)) _ e in
    let (table, _, e2) = >>=-eq-ok (index kind (lookup kind registry)) _ e1 in
    free_loop-IsFree none (free_providers table ladder) p (λ d none_given. cc)
      (free_providers-IsFree table ladder) (sym (auto_loop_lem table none ladder) ∙ e2)

select_requested-IsFree :
    (registry : Registry) (kind name : String) (p : Provider)
    → select_requested registry kind name false ≡ ok p
    → IsFree p × (is_paid_provider name ≡ false)
unfolding select_requested
select_requested-IsFree registry kind name p e = ground arith

empty_name_free : is_paid_provider "" ≡ false
unfolding is_paid_provider
empty_name_free = refl

-- RED LINE. Without `allow_paid` no selection returns a paid provider, and no request for a name
-- on the paid list succeeds, whatever is registered; in AUTO mode (no name, or an empty one) a paid
-- provider is not returned even with `allow_paid`.
pub select_never_paid :
    (registry : Registry) (kind : String) (requested : Option String) (allow_paid : Bool)
    (p : Provider)
    → select registry kind requested allow_paid ≡ ok p
    → (allow_paid ≡ false) ⊎ ((requested ≡ none) ⊎ (requested ≡ some ""))
    → IsFree p × ((name : String) → requested ≡ some name → is_paid_provider name ≡ false)
unfolding select
select_never_paid registry kind none allow_paid p e mode =
    (select_auto-IsFree registry kind p e, λ name named. cc)
select_never_paid registry kind (some r) allow_paid p e mode = elim (Bool-cases (r == "")) [
  | inl empty ↦ (
    select_auto-IsFree registry kind p (ground arith),
    λ name named. ground (arith, eq_iff r "", empty_name_free),
  )
  | inr given ↦
      let off : allow_paid ≡ false = ground (arith, eq_iff r "") in
      let found = select_requested-IsFree registry kind r p (ground arith) in
      (found.0, λ name named. ground (arith, found.1))
]
