-- ===== src/Providers/Circuit/Routing.antt =====
-- Which provider `route_free` of circuit.py picks.
pub mod Recovery
use mathlib.Core.List.{append-nil, append_assoc}
use open_video_trans.Common.{
  ℕ, String, ◌≡◌, refl, Bool, true, false, not, ◌&&◌, ◌||◌, Option, none, some, List, [], ◌∷◌, ◌++◌,
  arith, if◌then◌else◌, contains, lookup, eq_iff,
}
use open_video_trans.Providers.Ladder.{auto_ladder, is_paid_provider}
use open_video_trans.Providers.Circuit.{
  ProviderAvailability, is_exhausted, free_pool_exhausted, no_free_provider, Route, routed, failure,
  permitted, min?, note_reset, route_loop, route_on, route_free,
}

-- A provider that routing may consider.
unfoldable pub is_candidate : Option (List String) → String → Bool
is_candidate allowed name = not (is_paid_provider name) && permitted allowed name

-- A provider that routing may return.
unfoldable pub is_usable : ProviderAvailability → Option (List String) → String → Bool
is_usable s allowed name = is_candidate allowed name && not (is_exhausted s name)

module _ (s : ProviderAvailability) (allowed : Option (List String)) where
  unfoldable pub first_usable : List String → Option String
  first_usable [] = none
  first_usable (name ∷ l) = if is_usable s allowed name then some name else first_usable l

module _ (allowed : Option (List String)) where
  pub any_candidate : List String → Bool
  any_candidate [] = false
  any_candidate (name ∷ l) = is_candidate allowed name || any_candidate l

  -- The known resets of the candidates, in ladder order.
  pub resets_of : List (String × ℕ) → List String → List ℕ
  resets_of table [] = []
  resets_of table (name ∷ l) =
      if is_candidate allowed name
      then note_reset [] (lookup name table) ++ resets_of table l
      else resets_of table l

abbrev pub ladder_from : Option (List String) → List String
ladder_from none = []
ladder_from (some ladder) = ladder

-- The ladder of a kind, empty for an unknown kind.
unfoldable pub ladder_of : String → List String
ladder_of kind = ladder_from (lookup kind auto_ladder)

-- The route in three lines: the first usable provider; else, where the ladder has a candidate, the
-- pool is exhausted until the earliest reset; else there is no free provider.
abbrev pub route_spec :
    String → ProviderAvailability → Option (List String) → Option String → Bool → List ℕ → Route
route_spec kind s allowed (some name) saw resets = routed name kind
route_spec kind s allowed none true resets = failure kind free_pool_exhausted (min? resets)
route_spec kind s allowed none false resets = failure kind no_free_provider none

note_reset-append :
    (resets rest : List ℕ) (reset : Option ℕ)
    → note_reset resets reset ++ rest ≡ resets ++ (note_reset [] reset ++ rest)
note_reset-append resets rest none = refl
note_reset-append resets rest (some r) = append_assoc resets (r ∷ []) rest

module _ (kind : String) (s : ProviderAvailability) (allowed : Option (List String)) where
  route_loop_lem :
      (l : List String) (saw : Bool) (resets : List ℕ)
      → route_loop kind s allowed saw resets l
        ≡ route_spec kind s allowed
            (first_usable s allowed l)
            (saw || any_candidate allowed l)
            (resets ++ resets_of allowed s.exhausted_until l)
  unfolding route_loop first_usable any_candidate resets_of is_usable is_candidate
  route_loop_lem [] saw resets = ground (arith, append-nil resets)
  route_loop_lem (name ∷ l) saw resets =
      let reset = lookup name s.exhausted_until in
      ground (
        arith,
        route_loop_lem l saw resets,
        route_loop_lem l true (note_reset resets reset),
        note_reset-append resets (resets_of allowed s.exhausted_until l) reset,
      )

route_on-some :
    (kind : String) (s : ProviderAvailability) (allowed : Option (List String)) (l : List String)
    → route_on kind s allowed (some l)
      ≡ route_spec kind s allowed
          (first_usable s allowed l)
          (any_candidate allowed l)
          (resets_of allowed s.exhausted_until l)
route_on-some kind s allowed [] = unfold first_usable any_candidate in refl
route_on-some kind s allowed (name ∷ l) = route_loop_lem kind s allowed (name ∷ l) false []

-- `route_free` returns the first usable provider of the kind's ladder. If there is none it fails
-- with free_pool_exhausted and the earliest known reset, if the ladder has a free permitted
-- provider, and with no_free_provider otherwise.
pub route_free_lem :
    (kind : String) (s : ProviderAvailability) (configured : Option (List String))
    → route_free kind s configured
      ≡ route_spec kind s configured
          (first_usable s configured (ladder_of kind))
          (any_candidate configured (ladder_of kind))
          (resets_of configured s.exhausted_until (ladder_of kind))
unfolding route_free ladder_of
route_free_lem kind s configured =
    elim (lookup kind auto_ladder)
      as (λ o.
        route_on kind s configured o
        ≡ route_spec kind s configured (first_usable s configured (ladder_from o))
            (any_candidate configured (ladder_from o))
            (resets_of configured s.exhausted_until (ladder_from o))) [
              | none ↦ unfold first_usable any_candidate in refl
              | some ladder ↦ route_on-some kind s configured ladder
            ]

first_usable_sound :
    (s : ProviderAvailability) (allowed : Option (List String)) (l : List String) (name : String)
    → first_usable s allowed l ≡ some name
    → (is_usable s allowed name ≡ true) × (contains name l ≡ true)
unfolding first_usable
first_usable_sound s allowed [] name h = cc
first_usable_sound s allowed (x ∷ l) name h =
    ground (arith, first_usable_sound s allowed l name, eq_iff name x)

-- RED LINE. A provider that `route_free` returns is never a paid one. It stands on the $0 ladder
-- of its kind, is one of the configured providers where these are given, and is not exhausted at
-- the snapshot's instant.
pub route_free_never_paid :
    (kind : String) (s : ProviderAvailability) (configured : Option (List String))
    (provider kind' : String)
    → route_free kind s configured ≡ routed provider kind'
    → (is_paid_provider provider ≡ false)
      × (contains provider (ladder_of kind) ≡ true)
      × (permitted configured provider ≡ true)
      × (is_exhausted s provider ≡ false)
      × (kind' ≡ kind)
unfolding is_usable is_candidate
route_free_never_paid kind s configured provider kind' h = ground (
  arith,
  route_free_lem kind s configured,
  first_usable_sound s configured (ladder_of kind) provider,
)
