-- ===== src/Worker/Pipeline/Routing/Reroute.antt =====
-- What one re-route of pipeline.py does to the plan and to the exclusions.
use open_video_trans.Common.{
  String, ◌≡◌, refl, sym, ap, subst, ◌∙◌, ◌⊎◌, inl, inr, Bool, true, false, ◌||◌, Option, some,
  List, [], ◌∷◌, eq_iff, ok, arith, contains, Bool-cases, ok_inj, >>=-eq-ok,
}
use open_video_trans.Providers.Ladder.{is_paid_provider}
use open_video_trans.Worker.Pipeline.Stages.{
  StageKind, asr, mt, tts, same_kind, sentinel, update, is_planned,
}
use open_video_trans.Worker.Pipeline.Routing.{
  Rotation, clear_tts, exclude, reroute_stage, reroute_all,
}
use open_video_trans.Worker.Pipeline.Routing.Picks.{IsRouted, route_plan-eq-ok, same_kind_iff}

abbrev pub excluding : String → StageKind → Rotation → StageKind → List String
excluding failed k st = update st.excluded k (failed ∷ st.excluded k)

module _ (available : StageKind → List String) where
  -- The two ways in which a stage is re-routed.
  pub data Rerouted (failed : String) (k : StageKind) (st st' : Rotation) : Type 0 where
    kept :
        st'.plan ≡ st.plan
        → is_planned (st.plan k) failed ≡ false
        → st'.excluded ≡ excluding failed k st
        → st'.tts_pin ≡ st.tts_pin
        → Rerouted failed k st st'
    moved :
        (q : String)
        → st'.plan ≡ update st.plan k (some q)
        → (q ≡ sentinel) ⊎ IsRouted (available k) (failed ∷ st.excluded k) q
        → st'.excluded ≡ excluding failed k st
        → st'.tts_pin ≡ st.tts_pin
        → is_planned (st.plan k) failed ≡ true
        → Rerouted failed k st st'

  clear_tts_fields :
      (k : StageKind) (st : Rotation)
      → ((clear_tts available k st).plan ≡ st.plan)
        × ((clear_tts available k st).excluded ≡ st.excluded)
        × ((clear_tts available k st).tts_pin ≡ st.tts_pin)
  clear_tts_fields asr st = (refl, refl, refl)
  clear_tts_fields mt st = (refl, refl, refl)
  clear_tts_fields tts st = (refl, refl, refl)

  same_kind_refl : (k : StageKind) → same_kind k k ≡ true
  same_kind_refl k = (same_kind_iff k k).1 refl

  pub reroute_stage-Rerouted :
      (failed : String) (k : StageKind) (st st' : Rotation)
      → reroute_stage available failed k st ≡ ok st'
      → Rerouted failed k st st'
  unfolding reroute_stage exclude
  reroute_stage-Rerouted failed k st st' e = elim (Bool-cases (is_planned (st.plan k) failed)) [
    | inl planned ↦
        let before = clear_tts available k (exclude available failed k st) in
        let (p, q, r) = clear_tts_fields k (exclude available failed k st) in
        let (provider, same, source) = route_plan-eq-ok available k before st' (ground arith) in
        let own : before.excluded k ≡ failed ∷ st.excluded k =
          ground (arith, ap (λ (f : StageKind → List String). f k) q, same_kind_refl k) in
        moved provider
          (ap (λ (s : Rotation). s.plan) same
            ∙ ap (λ (f : StageKind → Option String). update f k (some provider)) p)
          (rw own at source) (ap (λ (s : Rotation). s.excluded) same ∙ q)
          (ap (λ (s : Rotation). s.tts_pin) same ∙ r) planned
    | inr other ↦
        let same : exclude available failed k st ≡ st' = ground arith in
        kept (ap (λ (s : Rotation). s.plan) (sym same)) other
          (ap (λ (s : Rotation). s.excluded) (sym same))
          (ap (λ (s : Rotation). s.tts_pin) (sym same))
  ]

  -- A stage is planned on the sentinel, or on a provider that is not excluded for it and is
  -- either free and available, or the pinned one of the tts stage.
  abbrev pub IsSoundAt : StageKind → Rotation → Type 0
  IsSoundAt k st =
      (p : String) × (st.plan k ≡ some p)
      × ((p ≡ sentinel)
          ⊎ (contains p (st.excluded k) ≡ false)
            × ((is_paid_provider p ≡ false) × (contains p (available k) ≡ true)
                ⊎ (k ≡ tts) × (st.tts_pin ≡ some p)))

  excluded_kept :
      (failed : String) (k j : StageKind) (st st' : Rotation) (p : String)
      → st'.excluded ≡ excluding failed k st
      → is_planned (st.plan k) failed ≡ false
      → st.plan j ≡ some p
      → contains p (st.excluded j) ≡ false
      → contains p (st'.excluded j) ≡ false
  excluded_kept failed k j st st' p ex other planned clean =
      let ex_j = ap (λ (f : StageKind → List String). f j) ex in
      elim (Bool-cases (same_kind j k)) [
        | inl same ↦
            let e : j ≡ k = (same_kind_iff j k).0 same in
            let own : is_planned (st.plan j) failed ≡ false = rw e other in
            let list : st'.excluded j ≡ failed ∷ st.excluded j = rw (← e) at (rw same at ex_j) in
            ground arith
        | inr apart ↦ ground arith
      ]

  pinned_kept :
      (j : StageKind) (st st' : Rotation) (p : String)
      → st'.tts_pin ≡ st.tts_pin
      → (is_paid_provider p ≡ false) × (contains p (available j) ≡ true)
        ⊎ (j ≡ tts) × (st.tts_pin ≡ some p)
      → (is_paid_provider p ≡ false) × (contains p (available j) ≡ true)
        ⊎ (j ≡ tts) × (st'.tts_pin ≡ some p)
  pinned_kept j st st' p pin (inl own) = inl own
  pinned_kept j st st' p pin (inr (e, pinned)) = inr (e, pin ∙ pinned)

  pub Rerouted-IsSoundAt :
      (failed : String) (k j : StageKind) (st st' : Rotation)
      → Rerouted failed k st st'
      → IsSoundAt j st
      → IsSoundAt j st'
  Rerouted-IsSoundAt failed k j st st' (kept plan_eq other ex pin) (p, planned, good) = (
    p,
    ap (λ (f : StageKind → Option String). f j) plan_eq ∙ planned,
    elim good [
      | inl out ↦ inl out
      | inr (clean, source) ↦ inr (
        excluded_kept failed k j st st' p ex other planned clean,
        pinned_kept j st st' p pin source,
      )
    ],
  )
  Rerouted-IsSoundAt failed k j st st' (moved q plan_eq source ex pin was) (p, planned, good) =
      let at_j = ap (λ (f : StageKind → Option String). f j) plan_eq in
      let ex_j = ap (λ (f : StageKind → List String). f j) ex in
      elim (Bool-cases (same_kind j k)) [
        | inl same ↦
            let e : j ≡ k = (same_kind_iff j k).0 same in
            (
              q,
              ground arith,
              elim source [
                | inl out ↦ inl out
                | inr ok' ↦ inr (ground (arith, ok'.allowed), inl (ok'.free, rw e ok'.present))
              ],
            )
        | inr other ↦ (
          p,
          ground arith,
          elim good [
            | inl out ↦ inl out
            | inr (clean, from_where) ↦ inr (ground arith, pinned_kept j st st' p pin from_where)
          ],
        )
      ]

  -- Exclusions are never taken back.
  abbrev pub ExcludesMore : Rotation → Rotation → Type 0
  ExcludesMore st st' =
      (j : StageKind) (x : String)
      → contains x (st.excluded j) ≡ true
      → contains x (st'.excluded j) ≡ true

  excluding_lem :
      (failed : String) (k : StageKind) (st st' : Rotation)
      → st'.excluded ≡ excluding failed k st
      → ExcludesMore st st' × (contains failed (st'.excluded k) ≡ true)
  excluding_lem failed k st st' ex = (
    λ j x old.
        let ex_j = ap (λ (f : StageKind → List String). f j) ex in
        elim (Bool-cases (same_kind j k)) [
          | inl same ↦
              let e : j ≡ k = (same_kind_iff j k).0 same in
              let list : st'.excluded j ≡ failed ∷ st.excluded j = rw (← e) at (rw same at ex_j) in
              ground (arith, eq_iff x failed)
          | inr apart ↦ ground arith
        ],
    let own : st'.excluded k ≡ failed ∷ st.excluded k =
          rw (same_kind_refl k) at (ap (λ (f : StageKind → List String). f k) ex) in
        ground (arith, eq_iff failed failed),
  )

  Rerouted-excluded :
      (failed : String) (k : StageKind) (st st' : Rotation)
      → Rerouted failed k st st'
      → (st'.excluded ≡ excluding failed k st) × (st'.tts_pin ≡ st.tts_pin)
  Rerouted-excluded failed k st st' (kept _ _ ex pin) = (ex, pin)
  Rerouted-excluded failed k st st' (moved _ _ _ ex pin _) = (ex, pin)

  -- A stage is one of a list.
  abbrev pub active : StageKind → List StageKind → Bool
  active j [] = false
  active j (k ∷ ks) = same_kind j k || active j ks

  -- What re-routing a list of stages leaves.
  pub record AllRerouted (failed : String) (ks : List StageKind) (st st' : Rotation) : Type 0 where
    pub sound : (j : StageKind) → IsSoundAt j st → IsSoundAt j st'
    pub more : ExcludesMore st st'
    pub out : (j : StageKind) → active j ks ≡ true → contains failed (st'.excluded j) ≡ true
    pub same_pin : st'.tts_pin ≡ st.tts_pin

  pub reroute_all-AllRerouted :
      (failed : String) (ks : List StageKind) (st st' : Rotation)
      → reroute_all available failed ks st ≡ ok st'
      → AllRerouted failed ks st st'
  unfolding reroute_all
  reroute_all-AllRerouted failed [] st st' e =
      let same = ok_inj e in
      record {
        sound = λ j h. subst (IsSoundAt j) same h;
        more = λ j x h. rw (← same) h;
        out = λ j h. cc;
        same_pin = rw same;
      }
  reroute_all-AllRerouted failed (k ∷ ks) st st' e =
      let (mid, first, rest) = >>=-eq-ok (reroute_stage available failed k st) _ e in
      let step = reroute_stage-Rerouted failed k st mid first in
      let ih = reroute_all-AllRerouted failed ks mid st' rest in
      let (ex, pin) = Rerouted-excluded failed k st mid step in
      let (more_mid, out_mid) = excluding_lem failed k st mid ex in
      record {
        sound = λ j h. ih.sound j (Rerouted-IsSoundAt failed k j st mid step h);
        more = λ j x h. ih.more j x (more_mid j x h);
        out = λ j h. elim (Bool-cases (same_kind j k)) [
          | inl same ↦
              let e' : j ≡ k = (same_kind_iff j k).0 same in rw e' (ih.more k failed out_mid)
          | inr apart ↦ ih.out j (ground arith)
        ];
        same_pin = ih.same_pin ∙ pin;
      }
