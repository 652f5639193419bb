-- ===== src/Providers/Circuit.antt =====
-- packages/provider-adapters/src/provider_adapters/circuit.py
pub mod Routing
mod Tests
use open_video_trans.Common.{
  ℕ, min, String, Bool, true, false, not, ◌&&◌, Option, none, some, List, [], ◌∷◌, ◌++◌, ltb,
  if◌then◌else◌, contains, lookup, keep_if,
}
use open_video_trans.Providers.Ladder.{auto_ladder, is_paid_provider}

-- `_free_ladder_providers()`: the names on the ladders that are not paid, as the list of a set.
abbrev pub free_names : List (String × List String) → List String
free_names [] = []
free_names ((kind, ladder) ∷ rest) =
    keep_if (λ name. not (is_paid_provider name)) ladder ++ free_names rest

unfoldable pub free_ladder_providers : List String
free_ladder_providers = free_names auto_ladder

pub record ProviderAvailability : Type 0 where
  pub now_ms : ℕ
  pub exhausted_until : List (String × ℕ)

abbrev pub before_reset : ℕ → Option ℕ → Bool
before_reset now_ms none = false
before_reset now_ms (some reset) = ltb now_ms reset

unfoldable pub is_exhausted : ProviderAvailability → String → Bool
is_exhausted s name = before_reset s.now_ms (lookup name s.exhausted_until)

-- FREE_POOL_EXHAUSTED and NO_FREE_PROVIDER
pub data Reason : Type 0 where
  free_pool_exhausted no_free_provider : Reason

-- ProviderResult and ProviderFailure
pub data Route : Type 0 where
  routed : (provider kind : String) → Route
  failure : (kind : String) (reason : Reason) (retry_at_ms : Option ℕ) → Route

unfoldable pub configured_free_providers : List String → List String
configured_free_providers names = keep_if (λ n. contains n free_ladder_providers) names

-- `allowed is None or name in allowed`
abbrev pub permitted : Option (List String) → String → Bool
permitted none name = true
permitted (some names) name = contains name names

abbrev pub smallest : ℕ → List ℕ → ℕ
smallest x [] = x
smallest x (y ∷ ys) = smallest (min x y) ys

-- `min(xs) if xs else None`
abbrev pub min? : List ℕ → Option ℕ
min? [] = none
min? (x ∷ xs) = some (smallest x xs)

abbrev pub note_reset : List ℕ → Option ℕ → List ℕ
note_reset resets none = resets
note_reset resets (some reset) = resets ++ reset ∷ []

module _ (kind : String) (s : ProviderAvailability) (allowed : Option (List String)) where
  -- The `for` loop of `route_free` over the rest of the ladder, and what follows it.
  unfoldable pub route_loop : Bool → List ℕ → List String → Route
  route_loop saw_candidate resets [] =
      if saw_candidate
      then failure kind free_pool_exhausted (min? resets)
      else failure kind no_free_provider none
  route_loop saw_candidate resets (name ∷ ladder) =
      let skip = route_loop saw_candidate resets ladder in
      let broken = route_loop true (note_reset resets (lookup name s.exhausted_until)) ladder in
      if is_paid_provider name
      then skip
      else if not (permitted allowed name)
      then skip
      else if is_exhausted s name
      then broken
      else routed name kind

  abbrev pub route_on : Option (List String) → Route
  route_on none = failure kind no_free_provider none
  route_on (some []) = failure kind no_free_provider none
  route_on (some (name ∷ ladder)) = route_loop false [] (name ∷ ladder)

-- `route_free(kind, snapshot, configured=…)`; the ladders are those of ladder.py.
unfoldable pub route_free : String → ProviderAvailability → Option (List String) → Route
route_free kind s configured = route_on kind s configured (lookup kind auto_ladder)
