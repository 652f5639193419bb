-- ===== src/Worker/ControlPlane/Rotation.antt =====
-- The rotation of the bearer token under calls from several threads.
use open_video_trans.Common.{
  ◌≡◌, refl, sym, ap, ◌∙◌, subst, String, none, some, List, [], ◌∷◌, ◌++◌, ◌⊎◌, inl, inr, All,
  eq_iff, some_inj, Bool-cases,
}
use open_video_trans.Worker.ControlPlane.{
  Reply, answered, stale_claim, refused, Auth, is_401, retry_with, promote, Client, ClientStep,
  begin_call, end_call, promote_next, ClientRun, start, next,
}

abbrev pub staged : String → String → Auth
staged current upcoming = record { auth = current; next_auth = some upcoming }

abbrev pub rotated : String → Auth
rotated upcoming = record { auth = upcoming; next_auth = none }

-- The tokens are those of the start, or the staged one has taken over; so a bearer is never lost.
abbrev pub Rotating : String → String → Auth → Type 0
Rotating current upcoming a = (a ≡ staged current upcoming) ⊎ (a ≡ rotated upcoming)

abbrev pub IsRotating : String → String → Client → Type 0
IsRotating current upcoming c =
    Rotating current upcoming c.state × All (Rotating current upcoming) c.in_flight

retry_with-eq-some :
    (snapshot : Auth) (first : Reply) (used : String)
    → retry_with snapshot first ≡ some used
    → snapshot.next_auth ≡ some used
unfolding retry_with
retry_with-eq-some snapshot (answered body) used e = cc
retry_with-eq-some snapshot stale_claim used e = cc
retry_with-eq-some snapshot (refused status) used e = elim (Bool-cases (is_401 status)) [
  | inl rejected ↦ rw rejected at e
  | inr other ↦ let impossible : none ≡ some used = rw other at e in cc
]

Rotating-used :
    (current upcoming used : String) (snapshot : Auth)
    → Rotating current upcoming snapshot
    → snapshot.next_auth ≡ some used
    → upcoming ≡ used
Rotating-used current upcoming used snapshot (inl same) e =
    some_inj (sym (ap (λ (a : Auth). a.next_auth) same) ∙ e)
Rotating-used current upcoming used snapshot (inr same) e =
    let impossible : none ≡ some used = sym (ap (λ (a : Auth). a.next_auth) same) ∙ e in cc

promote-Rotating :
    (current upcoming : String) (a : Auth)
    → Rotating current upcoming a
    → Rotating current upcoming (promote upcoming a)
unfolding promote
promote-Rotating current upcoming a (inr same) =
    subst (λ b. Rotating current upcoming (promote upcoming b)) (sym same) (inr refl)
promote-Rotating current upcoming a (inl same) =
    subst (λ b. Rotating current upcoming (promote upcoming b)) (sym same)
      (rw ((eq_iff upcoming upcoming).1 refl) (inr refl))

All-middle {ℓ} :
    {A : Type ℓ} (P : A → Type 0) (before : List A) (x : A) (after : List A)
    → All P (before ++ x ∷ after)
    → P x × All P (before ++ after)
All-middle P [] x after h = h
All-middle P (y ∷ before) x after h =
    let (mine, others) = All-middle P before x after h.1 in (mine, (h.0, others))

step-IsRotating :
    (current upcoming : String) (c d : Client)
    → ClientStep c d
    → IsRotating current upcoming c
    → IsRotating current upcoming d
step-IsRotating current upcoming _ _ (begin_call c) h = (h.0, (h.0, h.1))
step-IsRotating current upcoming _ _ (end_call state snapshot before after) h =
    (h.0, (All-middle (Rotating current upcoming) before snapshot after h.1).1)
step-IsRotating current upcoming _ _ (promote_next state snapshot before after first used e) h =
    let (mine, others) = All-middle (Rotating current upcoming) before snapshot after h.1 in
    let same =
      Rotating-used current upcoming used snapshot mine
        (retry_with-eq-some snapshot first used e) in
    (
      subst (λ t. Rotating current upcoming (promote t state)) same
          (promote-Rotating current upcoming state h.0),
      others,
    )

-- From a client that holds a current and a staged token, however the calls of its threads
-- interleave, the shared tokens and every snapshot of a call in flight are either the two tokens of
-- the start or the staged one alone as the current one.
pub run-IsRotating :
    (current upcoming : String) (c d : Client)
    → ClientRun c d
    → IsRotating current upcoming c
    → IsRotating current upcoming d
run-IsRotating current upcoming _ _ (start c) h = h
run-IsRotating current upcoming _ _ (next c d e run step) h =
    step-IsRotating current upcoming d e step (run-IsRotating current upcoming c d run h)
