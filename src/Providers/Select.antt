-- ===== src/Providers/Select.antt =====
-- packages/provider-adapters/src/provider_adapters/base.py: the registry and the selector.
pub mod RedLine
pub mod Registry
mod Tests
use open_video_trans.Common.{
  String, Bool, true, false, not, ◌&&◌, ◌||◌, Option, none, some, List, [], ◌∷◌, ◌==◌, Result, ok,
  err, ◌>>=◌, if◌then◌else◌, lookup, map,
}
use open_video_trans.Providers.Ladder.{auto_ladder, is_paid_provider}

pub record ProviderInfo : Type 0 where
  pub name : String
  pub kind : String
  pub paid : Bool
  pub requires : String
  pub languages : String
  pub notes : String

-- What a factory builds: its info, and what `available()` does now (it may raise).
pub record Provider : Type 0 where
  pub info : ProviderInfo
  pub available : Result (Unit {0}) Bool

-- The name → factory map of one kind, and `_REGISTRY`, in insertion order.
abbrev pub Table : Type 0
Table = List (String × Provider)

abbrev pub Registry : Type 0
Registry = List (String × Table)

-- The messages of ProviderUnavailable.
pub data Unavailable : Type 0 where
  unknown_provider not_configured no_free_registered : Unavailable

pub data SelectError : Type 0 where
  key_error : String → SelectError
  provider_unavailable : Unavailable → SelectError
  paid_provider_blocked : String → SelectError
  availability_raised : SelectError
  inconsistent_paid : String → SelectError

abbrev pub insert {ℓ} : {V : Type ℓ} → String → V → List (String × V) → List (String × V)
insert k v [] = (k, v) ∷ []
insert k v ((j, w) ∷ m) = if k == j then (j, v) ∷ m else (j, w) ∷ insert k v m

-- `d[k]`
abbrev pub index {ℓ} : {V : Type ℓ} → String → Option V → Result SelectError V
index k none = err (key_error k)
index k (some v) = ok v

unfoldable pub register : Registry → String → String → Provider → Result SelectError Registry
register registry kind name factory = do
  table ← index kind (lookup kind registry)
  ok (insert kind (insert name factory table) registry)

abbrev pub built : Option Provider → Result SelectError Provider
built none = err (provider_unavailable unknown_provider)
built (some factory) = ok factory

-- `_build(kind, name)`
unfoldable pub build : Registry → String → String → Result SelectError Provider
build registry kind name = do table ← index kind (lookup kind registry); built (lookup name table)

unfoldable pub list_providers : Registry → String → Result SelectError (List String)
list_providers registry kind = do
  table ← index kind (lookup kind registry)
  ok (map (λ (entry : String × Provider). entry.0) table)

-- A probe of the availability never raises.
abbrev pub probed : Result (Unit {0}) Bool → Bool
probed (ok b) = b
probed (err _) = false

unfoldable pub probe : Registry → String → Result SelectError (List (String × Bool × ProviderInfo))
probe registry kind = do
  table ← index kind (lookup kind registry)
  ok (map (λ (entry : String × Provider). (entry.0, probed entry.1.available, entry.1.info)) table)

abbrev pub check_available : Result (Unit {0}) Bool → Result SelectError Bool
check_available (ok b) = ok b
check_available (err _) = err availability_raised

-- The branch of `select` for a requested name.
unfoldable pub select_requested : Registry → String → String → Bool → Result SelectError Provider
select_requested registry kind requested allow_paid =
    if is_paid_provider requested && not allow_paid
    then err (paid_provider_blocked requested)
    else do
      prov ← build registry kind requested
      if prov.info.paid && not allow_paid then err (paid_provider_blocked requested) else do
        avail ← check_available prov.available
        if avail then ok prov else err (provider_unavailable not_configured)

abbrev pub or_default : Option Provider → Provider → Option Provider
or_default none prov = some prov
or_default (some d) prov = some d

abbrev pub default_or_raise : Option Provider → Result SelectError Provider
default_or_raise none = err (provider_unavailable no_free_registered)
default_or_raise (some d) = ok d

-- The `for` loop over the ladder, and what follows it.
unfoldable pub auto_loop : Table → Option Provider → List String → Result SelectError Provider
auto_loop table free_default [] = default_or_raise free_default
auto_loop table free_default (name ∷ ladder) = elim (lookup name table) [
  | none ↦ auto_loop table free_default ladder
  | some prov ↦
      let skip = auto_loop table free_default ladder in
      let rest = auto_loop table (or_default free_default prov) ladder in
      if is_paid_provider name || prov.info.paid
      then skip
      else check_available prov.available >>= λ avail. if avail then ok prov else rest
]

unfoldable pub select_auto : Registry → String → Result SelectError Provider
select_auto registry kind = do
  ladder ← index kind (lookup kind auto_ladder)
  table ← index kind (lookup kind registry)
  auto_loop table none ladder

-- `select(kind, requested, allow_paid)`; an empty name is no request.
unfoldable pub select : Registry → String → Option String → Bool → Result SelectError Provider
select registry kind none allow_paid = select_auto registry kind
select registry kind (some requested) allow_paid =
    if requested == ""
    then select_auto registry kind
    else select_requested registry kind requested allow_paid

abbrev pub same_flag : Bool → Bool → Bool
same_flag a b = a && b || not a && not b

abbrev pub Infos : Type 0
Infos = List (String × ProviderInfo)

abbrev pub merge_entry :
    Infos → String → ProviderInfo → Option ProviderInfo → Result SelectError Infos
merge_entry registry name info none = ok (insert name info registry)
merge_entry registry name info (some existing) =
    if same_flag existing.paid info.paid then ok registry else err (inconsistent_paid name)

-- The inner loop of `build_registry`, over the names of one kind.
unfoldable pub merge_table : Infos → Table → Result SelectError Infos
merge_table registry [] = ok registry
merge_table registry ((name, factory) ∷ table) =
    merge_entry registry name factory.info (lookup name registry) >>= λ merged.
    merge_table merged table

merge_kinds : Infos → Registry → Result SelectError Infos
merge_kinds registry [] = ok registry
merge_kinds registry ((kind, table) ∷ kinds) =
    merge_table registry table >>= λ merged. merge_kinds merged kinds

unfoldable pub build_registry : Registry → Result SelectError Infos
unfolding merge_kinds
build_registry registry = merge_kinds [] registry
