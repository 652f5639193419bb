-- ===== src/Worker/Pipeline/Rotation/Start.antt =====
-- The initial route of `run_real_pipeline` of pipeline.py.
use open_video_trans.Common.{
  ℕ, String, ◌≡◌, refl, sym, ap, subst, ◌∙◌, ◌⊎◌, inl, inr, true, false, Option, some, List, [],
  ◌∷◌, Result, ok, arith, if◌then◌else◌, Bool-cases, Option-cases, ok_inj, >>=-eq-ok,
}
use open_video_trans.Providers.Circuit.{ProviderAvailability}
use open_video_trans.Worker.Pipeline.Stages.{StageKind, asr, mt, tts, same_kind, sentinel, update}
use open_video_trans.Worker.Pipeline.Routing.{Rotation, route_plan}
use open_video_trans.Worker.Pipeline.Routing.Picks.{IsRouted, route_plan-eq-ok, same_kind_iff}
use open_video_trans.Worker.Pipeline.Routing.Reroute.{IsSoundAt, active}
use open_video_trans.Worker.Pipeline.Rotation.{Outcome, route_tts, route_initial}

module _ (later_kinds : List StageKind) (available : StageKind → List String)
    (run : ℕ → Rotation → Outcome) (refresh : ℕ → Option ProviderAvailability) (clock : ℕ → ℕ) where
  update-IsSoundAt :
      (k : StageKind) (st : Rotation) (p : String)
      → (p ≡ sentinel) ⊎ IsRouted (available k) (st.excluded k) p
      → IsSoundAt available k (record st { plan = update st.plan k (some p) })
  update-IsSoundAt k st p source = (
    p,
    rw ((same_kind_iff k k).1 refl),
    elim source [ inl out ↦ inl out | inr own ↦ inr (own.allowed, inl (own.free, own.present)) ],
  )

  abbrev place : StageKind → Rotation → Result Rotation Rotation
  place k st =
      if same_kind k tts
      then route_tts later_kinds available run refresh clock st.tts_pin st
      else route_plan available k st

  -- One stage of the initial route, before anything is excluded.
  place-eq-ok :
      (k : StageKind) (st mid : Rotation)
      → ((j : StageKind) → st.excluded j ≡ [])
      → place k st ≡ ok mid
      → (p : String) × (mid ≡ record st { plan = update st.plan k (some p) })
        × IsSoundAt available k mid
  place-eq-ok asr st mid clean e =
      let (p, same, source) = route_plan-eq-ok available asr st mid e in
      (p, same, subst (IsSoundAt available asr) (sym same) (update-IsSoundAt asr st p source))
  place-eq-ok mt st mid clean e =
      let (p, same, source) = route_plan-eq-ok available mt st mid e in
      (p, same, subst (IsSoundAt available mt) (sym same) (update-IsSoundAt mt st p source))
  place-eq-ok tts st mid clean e = elim (Option-cases st.tts_pin) [
    | inl unpinned ↦
        let (p, same, source) = route_plan-eq-ok available tts st mid (ground arith) in
        (p, same, subst (IsSoundAt available tts) (sym same) (update-IsSoundAt tts st p source))
    | inr (pin, pinned) ↦
        let same : mid ≡ record st { plan = update st.plan tts (some pin) } = ground arith in
        (
          pin,
          same,
          subst (IsSoundAt available tts) (sym same)
              (pin, refl, inr (ground (arith, clean tts), inr (refl, pinned))),
        )
  ]

  placed_elsewhere :
      (j k : StageKind) (st mid : Rotation) (p : String)
      → mid ≡ record st { plan = update st.plan k (some p) }
      → same_kind j k ≡ false
      → IsSoundAt available j st
      → IsSoundAt available j mid
  placed_elsewhere j k st mid p same apart (q, planned, good) =
      subst (IsSoundAt available j) (sym same) (q, rw apart planned, good)

  pub route_initial_sound :
      (ks : List StageKind) (st st' : Rotation)
      → ((j : StageKind) → st.excluded j ≡ [])
      → route_initial later_kinds available run refresh clock ks st ≡ ok st'
      → ((j : StageKind)
          → IsSoundAt available j st ⊎ (active available j ks ≡ true)
          → IsSoundAt available j st')
        × (st'.tts_pin ≡ st.tts_pin)
        × ((j : StageKind) → st'.excluded j ≡ [])
  unfolding route_initial
  route_initial_sound [] st st' clean e =
      let same : st ≡ st' = ok_inj e in
      (
        λ j h. elim h [
          | inl sound ↦ subst (IsSoundAt available j) same sound
          | inr none_left ↦ absurd (ground arith)
        ],
        rw same,
        λ j. rw (← same) (clean j),
      )
  route_initial_sound (k ∷ ks) st st' clean e =
      let (mid, here, rest) = >>=-eq-ok (place k st) _ e in
      let (p, same, sound_k) = place-eq-ok k st mid clean here in
      let clean_mid : (j : StageKind) → mid.excluded j ≡ [] = λ j. rw same (clean j) in
      let (ih, pin, clean') = route_initial_sound ks mid st' clean_mid rest in
      (
        λ j h. elim (Bool-cases (same_kind j k)) [
          | inl hit ↦ ih j (
              inl
                (subst (λ i. IsSoundAt available i mid) (sym ((same_kind_iff j k).0 hit)) sound_k))
          | inr apart ↦ elim h [
            | inl sound ↦ ih j (inl (placed_elsewhere j k st mid p same apart sound))
            | inr later ↦ ih j (inr (ground arith))
          ]
        ],
        pin ∙ ap (λ (s : Rotation). s.tts_pin) same,
        clean',
      )
