-- ===== src/ControlPlane/Claim/Lease.antt =====
-- A job that is claimed is not handed out again while its lease lasts.
use open_video_trans.Common.{
  ℕ, ◌+◌, ◌<◌, ◌≡◌, sym, subst, String, false, ◌&&◌, Option, none, some, List, [], ◌∷◌, map, ◌==◌,
  arith, All, Any, Bool-cases, inl, inr, if◌then◌else◌,
}
use open_video_trans.ControlPlane.Claim.{
  JobRow, is_claimable, pick_job, taken, update_row, update_rows, claim_one, Request, claim_for,
  with_row, run_claims,
}
use open_video_trans.ControlPlane.Claim.Exclusive.{
  IsKeyed, IsPicked, pick_job-IsPicked, HeldRow, IsHeld, claimed-IsHeld,
}

module _ (id : String) (expiry now lease_ms max_attempt : ℕ) (consumer : String)
    (early : now < expiry) where
  update_row-HeldRow_still :
      (r x : JobRow)
      → HeldRow id expiry x
      → HeldRow id expiry (update_row now lease_ms max_attempt consumer r x)
  update_row-HeldRow_still r x held =
      elim (Bool-cases (x.job_id == r.job_id && is_claimable now max_attempt x)) [
        | inr miss ↦
            subst (HeldRow id expiry)
              (λ i. if (sym miss) i then taken now lease_ms consumer x else x) held
        | inl hit ↦
            subst (HeldRow id expiry)
              (λ i. if (sym hit) i then taken now lease_ms consumer x else x)
              (λ e later max_later before.
                let closed : is_claimable now max_attempt x ≡ false =
                  held e now max_attempt early in
                let impossible : (x.job_id == r.job_id && is_claimable now max_attempt x) ≡ false =
                  ground (arith, closed) in
                cc)
      ]

  map-IsHeld :
      (r : JobRow) (rows : List JobRow)
      → IsHeld id expiry rows
      → IsHeld id expiry (map (update_row now lease_ms max_attempt consumer r) rows)
  map-IsHeld r [] held = tt
  map-IsHeld r (x ∷ rows) held = (update_row-HeldRow_still r x held.0, map-IsHeld r rows held.1)

  update_rows-IsHeld_still :
      (rows : List JobRow) (o : Option JobRow)
      → IsHeld id expiry rows
      → IsHeld id expiry (update_rows now lease_ms max_attempt consumer rows o).0
  update_rows-IsHeld_still rows none held = held
  update_rows-IsHeld_still rows (some r) held = map-IsHeld r rows held

  Any-HeldRow :
      (r : JobRow) (rows : List JobRow)
      → IsHeld id expiry rows
      → Any (λ s. s ≡ r) rows
      → HeldRow id expiry r
  Any-HeldRow r [] held nowhere = elim nowhere [ ]
  Any-HeldRow r (s ∷ rows) held (inl same) = subst (HeldRow id expiry) same held.0
  Any-HeldRow r (s ∷ rows) held (inr later) = Any-HeldRow r rows held.1 later

  -- A claim hands out another job.
  handed_out_other :
      (rows returned : List JobRow) (o : Option JobRow)
      → IsHeld id expiry rows
      → IsPicked now max_attempt rows o
      → All (λ (r : JobRow). (r.job_id == id) ≡ false) returned
      → All
          (λ (r : JobRow). (r.job_id == id) ≡ false)
          (with_row (update_rows now lease_ms max_attempt consumer rows o).1 returned)
  handed_out_other rows returned none held picked rest = rest
  handed_out_other rows returned (some r) held picked rest = elim (Bool-cases (r.job_id == id)) [
    | inr other ↦ (other, rest)
    | inl same ↦
        let closed = Any-HeldRow r rows held picked.0 same now max_attempt early in
        let open_row = picked.1 in cc
  ]

run_claims-other :
    (id : String) (expiry : ℕ) (requests : List Request) (rows : List JobRow)
    → All (λ (q : Request). q.now_ms < expiry) requests
    → IsHeld id expiry rows
    → All (λ (r : JobRow). (r.job_id == id) ≡ false) (run_claims requests rows)
unfolding run_claims claim_one
run_claims-other id expiry [] rows early held = tt
run_claims-other id expiry (q ∷ requests) rows early held =
    let picked = pick_job-IsPicked q.now_ms q.max_attempt rows in
    let o = pick_job q.now_ms q.max_attempt rows in
    handed_out_other id expiry q.now_ms q.lease_ms q.max_attempt q.consumer early.0 rows _ o held
      picked
      (run_claims-other id expiry requests (claim_for q rows).0 early.1 (
        update_rows-IsHeld_still id expiry q.now_ms q.lease_ms q.max_attempt q.consumer early.0 rows
          o held))

-- In a table keyed by the job, once a claim has returned a job, no sequence of claims by any
-- consumers at times before the end of its lease returns that job again.
pub claim_one-exclusive :
    (now lease_ms max_attempt : ℕ) (consumer : String) (rows after : List JobRow) (got : JobRow)
    (requests : List Request)
    → IsKeyed rows
    → claim_one now lease_ms max_attempt consumer rows ≡ (after, some got)
    → All (λ (q : Request). q.now_ms < now + lease_ms) requests
    → All (λ (r : JobRow). (r.job_id == got.job_id) ≡ false) (run_claims requests after)
unfolding claim_one
claim_one-exclusive now lease_ms max_attempt consumer rows after got requests keyed e early =
    run_claims-other got.job_id (now + lease_ms) requests after early (
      claimed-IsHeld now lease_ms max_attempt consumer rows after (pick_job now max_attempt rows)
        got keyed (pick_job-IsPicked now max_attempt rows) e)
