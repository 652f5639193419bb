-- ===== src/Providers/Circuit/Routing/Recovery.antt =====
-- When an exhausted pool of circuit.py recovers.
use open_video_trans.Common.{
  ℕ, ◌≤◌, ◌<◌, min, String, ◌≡◌, refl, ap, subst, ◌⊎◌, inl, inr, Bool, true, false, Option, none,
  some, List, [], ◌∷◌, ◌++◌, arith, if◌then◌else◌, All, Any, lookup, Bool-cases, Option-cases,
}
use open_video_trans.Providers.Circuit.{
  ProviderAvailability, is_exhausted, free_pool_exhausted, routed, failure, smallest, min?,
  note_reset, route_free,
}
use open_video_trans.Providers.Circuit.Routing.{
  is_candidate, is_usable, first_usable, any_candidate, resets_of, ladder_of, route_free_lem,
}

-- The same table of resets, read at another instant.
abbrev pub at : ProviderAvailability → ℕ → ProviderAvailability
at s t = record s { now_ms = t }

smallest-le : (x : ℕ) (xs : List ℕ) → (smallest x xs ≤ x) × All (λ r. smallest x xs ≤ r) xs
smallest-le x [] = (omega arith, tt)
smallest-le x (y ∷ ys) =
    let (least, rest) = smallest-le (min x y) ys in (omega arith, (omega arith, rest))

smallest-mem : (x : ℕ) (xs : List ℕ) → Any (λ r. r ≡ smallest x xs) (x ∷ xs)
smallest-mem x [] = inl refl
smallest-mem x (y ∷ ys) = elim (smallest-mem (min x y) ys) [
  | inl first ↦ elim (min_cases x y) [ inl e ↦ inl (omega arith) | inr e ↦ inr (inl (omega arith)) ]
  | inr later ↦ inr (inr later)
]
  where
    min_cases : (a b : ℕ) → (min a b ≡ a) ⊎ (min a b ≡ b)
    min_cases a b = omega arith

All-below : {u : ℕ} (rs : List ℕ) (m : ℕ) → u < m → All (λ r. m ≤ r) rs → All (λ r. u < r) rs
All-below [] m h all = tt
All-below (r ∷ rs) m h all = (omega arith, All-below rs m h all.1)

min?-All : (t u : ℕ) (rs : List ℕ) → min? rs ≡ some t → u < t → All (λ r. u < r) rs
min?-All t u [] e h = tt
min?-All t u (r ∷ rs) e h =
    let (least, rest) = smallest-le r rs in
    let same : smallest r rs ≡ t = cc in
    (omega arith, All-below rs (smallest r rs) (omega arith) rest)

min?-Any : (t : ℕ) (rs : List ℕ) → min? rs ≡ some t → Any (λ r. r ≡ t) rs
min?-Any t [] e = cc
min?-Any t (r ∷ rs) e =
    let same : smallest r rs ≡ t = cc in
    subst (λ v. Any (λ x. x ≡ v) (r ∷ rs)) same (smallest-mem r rs)

module _ (s : ProviderAvailability) (allowed : Option (List String)) (t : ℕ) where
  after_head :
      (c : Bool) (o : Option ℕ) (rs : List ℕ)
      → All (λ r. t < r) (if c then note_reset [] o ++ rs else rs)
      → All (λ r. t < r) rs × ((r : ℕ) → o ≡ some r → c ≡ true → t < r)
  after_head true none rs h = (h, λ r e _. cc)
  after_head true (some x) rs h = (h.1, λ r e _. ground (arith, h.0))
  after_head false o rs h = (h, λ r e c. cc)

  head_or_rest :
      (c : Bool) (o : Option ℕ) (rs : List ℕ)
      → Any (λ r. r ≡ t) (if c then note_reset [] o ++ rs else rs)
      → (c ≡ true) × (o ≡ some t) ⊎ Any (λ r. r ≡ t) rs
  head_or_rest true none rs h = inr h
  head_or_rest true (some x) rs (inl e) = inl (refl, ap some e)
  head_or_rest true (some x) rs (inr h) = inr h
  head_or_rest false o rs h = inr h

  still_exhausted :
      (l : List String)
      → first_usable s allowed l ≡ none
      → All (λ r. t < r) (resets_of allowed s.exhausted_until l)
      → first_usable (at s t) allowed l ≡ none
  unfolding first_usable resets_of is_usable is_exhausted
  still_exhausted [] idle later = refl
  still_exhausted (name ∷ l) idle later =
      let known = lookup name s.exhausted_until in
      let (rest, here) = after_head (is_candidate allowed name) known _ later in
      elim (Option-cases known) [
        | inl unknown ↦ ground (arith, still_exhausted l)
        | inr (r, e) ↦ ground (arith, still_exhausted l, here r e)
      ]

  recovered :
      (l : List String)
      → Any (λ r. r ≡ t) (resets_of allowed s.exhausted_until l)
      → (p : String) × (first_usable (at s t) allowed l ≡ some p)
  unfolding first_usable resets_of is_usable is_exhausted
  recovered [] found = elim found [ ]
  recovered (name ∷ l) found =
      elim (head_or_rest (is_candidate allowed name) (lookup name s.exhausted_until) _ found) [
        | inl (c, e) ↦ (name, ground arith)
        | inr later ↦
            let (p, e) = recovered l later in
            elim (Bool-cases (is_usable (at s t) allowed name)) [
              | inl yes' ↦ (name, ground arith)
              | inr no' ↦ (p, ground arith)
            ]
      ]

module _ (kind : String) (s : ProviderAvailability) (configured : Option (List String))
    (kind' : String) (t : ℕ)
    (failed : route_free kind s configured ≡ failure kind' free_pool_exhausted (some t)) where
  idle_now :
      (first_usable s configured (ladder_of kind) ≡ none)
      × (any_candidate configured (ladder_of kind) ≡ true)
      × (min? (resets_of configured s.exhausted_until (ladder_of kind)) ≡ some t)
      × (kind ≡ kind')
  idle_now = ground (arith, route_free_lem kind s configured)

  -- With the same table of resets, a pool that failed with the retry time `t` goes on failing in
  -- the same way at every instant before `t`, and routes a provider at `t` itself.
  pub retry_at_exact :
      ((now : ℕ)
        → now < t
        → route_free kind (at s now) configured ≡ failure kind' free_pool_exhausted (some t))
      × ((p : String) × (route_free kind (at s t) configured ≡ routed p kind))
  retry_at_exact = (
    λ now early.
        let later = min?-All t now _ idle_now.2 early in
        ground (
          arith,
          idle_now,
          route_free_lem kind (at s now) configured,
          still_exhausted s configured now (ladder_of kind) idle_now.0 later,
        ),
    let (p, e) = recovered s configured t (ladder_of kind) (min?-Any t _ idle_now.2) in
        (p, ground (arith, route_free_lem kind (at s t) configured)),
  )
