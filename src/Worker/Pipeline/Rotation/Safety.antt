-- ===== src/Worker/Pipeline/Rotation/Safety.antt =====
-- Which plans the attempt loop of pipeline.py hands to the kernel.
use open_video_trans.Common.{
  ℕ, String, ◌≡◌, ◌≢◌, refl, sym, ap, subst, ◌∙◌, ◌⊎◌, inl, inr, true, false, Option, none, some,
  List, [], eq_iff, ok, arith, contains, Bool-cases, Option-cases,
}
use open_video_trans.Providers.Ladder.{is_paid_provider}
use open_video_trans.Providers.Circuit.{ProviderAvailability}
use open_video_trans.Worker.Pipeline.Stages.{StageKind, asr, tts, sentinel, is_planned}
use open_video_trans.Worker.Pipeline.Routing.{Rotation, log, routed_ok, affected}
use open_video_trans.Worker.Pipeline.Routing.Reroute.{IsSoundAt, ExcludesMore, active}
use open_video_trans.Worker.Pipeline.Rotation.{Outcome, again, reconcile, route_initial}
use open_video_trans.Worker.Pipeline.Rotation.Turns.{
  Blame, stages, settled, next_attempt, blamed, attempt-Turn,
}
use open_video_trans.Worker.Pipeline.Rotation.Start.{route_initial_sound}

sentinel_free : is_paid_provider sentinel ≡ false
unfolding is_paid_provider
sentinel_free = refl

module _ (later_kinds : List StageKind) (available : StageKind → List String)
    (run : ℕ → Rotation → Outcome) (refresh : ℕ → Option ProviderAvailability) (clock : ℕ → ℕ) where
  abbrev pub kernel_view : Rotation → Rotation
  kernel_view st = settled later_kinds available run refresh clock st

  abbrev pub active_stages : List StageKind
  active_stages = stages later_kinds available run refresh clock

  -- The state in which the loop begins.
  abbrev pub begun : Rotation → Rotation
  begun st = log st (routed_ok (st.plan asr))

  -- The state after the initial route, and those at the head of each later attempt.
  pub data Attempts (start : Rotation) : Rotation → Type 0 where
    first : Attempts start start
    then_again :
        {a b : Rotation} (n : ℕ)
        → next_attempt later_kinds available run refresh clock n a ≡ again b
        → Attempts start a
        → Attempts start b

  pub reconcile-IsSoundAt :
      (k : StageKind) (st : Rotation)
      → IsSoundAt available k st
      → IsSoundAt available k (kernel_view st)
  unfolding reconcile
  reconcile-IsSoundAt k st (p, planned, good) = elim (Option-cases st.tts_pin) [
    | inl unpinned ↦ rw (unpinned, reconcile) (p, planned, good)
    | inr (pin, pinned) ↦ elim (Bool-cases (is_planned (st.plan tts) pin)) [
      | inl holds ↦ rw (pinned, reconcile) (rw holds (p, planned, good))
      | inr lost ↦
          rw (pinned, reconcile)
            (rw lost (
              p,
              planned,
              elim good [
                | inl out ↦ inl out
                | inr (clean, inl own) ↦ inr (clean, inl own)
                | inr (clean, inr (here, held)) ↦
                    let same : pin ≡ p = ground arith in
                    let at_tts : st.plan tts ≡ some p = rw (← here) planned in
                    absurd (ground (arith, eq_iff p pin))
              ],
            ))
    ]
  ]

  -- `reconcile` changes neither the exclusions nor the plan, and can only drop the pin.
  pub reconcile_fields :
      (st : Rotation)
      → ((kernel_view st).excluded ≡ st.excluded)
        × ((kernel_view st).plan ≡ st.plan)
        × (((kernel_view st).tts_pin ≡ st.tts_pin) ⊎ ((kernel_view st).tts_pin ≡ none))
  unfolding reconcile
  reconcile_fields st = elim (Option-cases st.tts_pin) [
    | inl unpinned ↦ rw (unpinned, reconcile) (refl, refl, inl unpinned)
    | inr (pin, pinned) ↦ elim (Bool-cases (is_planned (st.plan tts) pin)) [
      | inl holds ↦ rw (pinned, reconcile) (rw holds (refl, refl, inl pinned))
      | inr lost ↦ rw (pinned, reconcile) (rw lost (refl, refl, inr refl))
    ]
  ]

  Attempts-IsSoundAt :
      (start st : Rotation) (k : StageKind)
      → Attempts start st
      → IsSoundAt available k start
      → IsSoundAt available k st
  Attempts-IsSoundAt start st k first h = h
  Attempts-IsSoundAt start st k (then_again {a = a} n e path) h =
      (attempt-Turn later_kinds available run refresh clock n a st e).rerouted.sound k
        (reconcile-IsSoundAt k a (Attempts-IsSoundAt start a k path h))

  Turn-ExcludesMore :
      (n : ℕ) (a b : Rotation)
      → next_attempt later_kinds available run refresh clock n a ≡ again b
      → ExcludesMore available a b
  Turn-ExcludesMore n a b e j x old =
      let turn = attempt-Turn later_kinds available run refresh clock n a b e in
      turn.rerouted.more j x
        (rw (ap (λ (f : StageKind → List String). f j) (reconcile_fields a).0) old)

  Attempts-ExcludesMore :
      (start st : Rotation) → Attempts start st → ExcludesMore available start st
  Attempts-ExcludesMore start st first j x old = old
  Attempts-ExcludesMore start st (then_again {a = a} n e path) j x old =
      Turn-ExcludesMore n a st e j x (Attempts-ExcludesMore start a path j x old)

  Attempts-pin :
      (start st : Rotation) → Attempts start st → (st.tts_pin ≡ start.tts_pin) ⊎ (st.tts_pin ≡ none)
  Attempts-pin start st first = inl refl
  Attempts-pin start st (then_again {a = a} n e path) =
      let turn = attempt-Turn later_kinds available run refresh clock n a st e in
      ground (arith, turn.rerouted.same_pin, (reconcile_fields a).2, Attempts-pin start a path)

  -- RED LINE. Nothing is excluded at the start, and the soft pin, if there is one, is no paid
  -- provider. Then in every attempt, however the kernel, the control plane and the availability
  -- fail before it, each stage of the job is planned on a provider that is not paid; it is the
  -- sentinel, or a provider that no earlier failure has excluded from the stage.
  pub kernel_never_paid :
      (start routed_start st : Rotation) (k : StageKind)
      → ((j : StageKind) → start.excluded j ≡ [])
      → ((pin : String) → start.tts_pin ≡ some pin → is_paid_provider pin ≡ false)
      → route_initial later_kinds available run refresh clock active_stages start ≡ ok routed_start
      → Attempts (begun routed_start) st
      → active available k active_stages ≡ true
      → (p : String) × ((kernel_view st).plan k ≡ some p)
        × (is_paid_provider p ≡ false)
        × ((p ≡ sentinel) ⊎ (contains p ((kernel_view st).excluded k) ≡ false))
  kernel_never_paid start routed_start st k clean free_pin e path on =
      let (sound, pin, _) =
        route_initial_sound later_kinds available run refresh clock active_stages start routed_start
          clean e in
      let at_st = Attempts-IsSoundAt (begun routed_start) st k path (sound k (inr on)) in
      let (p, planned, good) = reconcile-IsSoundAt k st at_st in
      let fields = reconcile_fields st in
      let held = Attempts-pin (begun routed_start) st path in
      (
        p,
        planned,
        elim good [
          | inl out ↦ rw out sentinel_free
          | inr (clean', inl own) ↦ own.0
          | inr (clean', inr (here, mine)) ↦ free_pin p (ground arith)
        ],
        elim good [ inl out ↦ inl out | inr (clean', _) ↦ inr clean' ],
      )

  -- Once a turn has blamed a provider, no later attempt plans it on an affected stage again,
  -- unless it is the sentinel: the stage itself, and after a 429 every stage behind it as well.
  pub blamed_never_again :
      (start routed_start a b st : Rotation) (n : ℕ) (blame : Blame) (j : StageKind)
      (ks : List StageKind)
      → ((j : StageKind) → start.excluded j ≡ [])
      → route_initial later_kinds available run refresh clock active_stages start ≡ ok routed_start
      → Attempts (begun routed_start) a
      → next_attempt later_kinds available run refresh clock n a ≡ again b
      → blamed later_kinds available run refresh clock (run n (kernel_view a)) (kernel_view a)
        ≡ some blame
      → affected available blame.wide blame.kind active_stages ≡ some ks
      → active available j ks ≡ true
      → active available j active_stages ≡ true
      → Attempts b st
      → blame.provider ≢ sentinel
      → (kernel_view st).plan j ≢ some blame.provider
  blamed_never_again start routed_start a b st n blame j ks clean e path step cause reach hit on
        rest real again_planned =
      let (sound, pin, _) =
        route_initial_sound later_kinds available run refresh clock active_stages start routed_start
          clean e in
      let turn = attempt-Turn later_kinds available run refresh clock n a b step in
      let at_b =
        Attempts-IsSoundAt (begun routed_start) b j (then_again n step path) (sound j (inr on)) in
      let (p, planned, good) = reconcile-IsSoundAt j st (Attempts-IsSoundAt b st j rest at_b) in
      let same : turn.blame ≡ blame = ground (arith, turn.cause) in
      let reach' : affected available blame.wide blame.kind active_stages ≡ some turn.ks =
        subst (λ (x : Blame). affected available x.wide x.kind active_stages ≡ some turn.ks) same
          turn.reach in
      let same_ks : turn.ks ≡ ks = ground (arith, reach, reach') in
      let out : contains blame.provider (b.excluded j) ≡ true =
        subst (λ (x : Blame). contains x.provider (b.excluded j) ≡ true) same
          (turn.rerouted.out j (rw same_ks hit)) in
      let still = Attempts-ExcludesMore b st rest j blame.provider out in
      let view = ap (λ (f : StageKind → List String). f j) (reconcile_fields st).0 in
      let it : p ≡ blame.provider = ground arith in
      elim good [
        | inl sentinel_planned ↦ real (sym it ∙ sentinel_planned)
        | inr (not_excluded, _) ↦
            let now : contains blame.provider ((kernel_view st).excluded j) ≡ false =
              rw (← it) not_excluded in
            absurd (ground (arith, view, still, now))
      ]
