-- ===== src/ControlPlane/Claim/Exclusive.antt =====
-- A claim leaves its job held while the lease lasts.
use open_video_trans.Common.{
  ℕ, ◌+◌, ◌<◌, ◌≡◌, refl, sym, ap, subst, String, true, false, ◌&&◌, Option, none, some, List, [],
  ◌∷◌, map, ◌==◌, arith, All, Any, Bool-cases, inl, inr, eq_iff, some_inj, if◌then◌else◌,
}
use open_video_trans.ControlPlane.Claim.{
  JobRow, is_claimable, goes_before, better, pick_job, taken, update_row, update_rows,
}

-- `job_id` is the primary key.
abbrev pub IsKeyed : List JobRow → Type 0
IsKeyed [] = Unit {0}
IsKeyed (r ∷ rows) = All (λ (s : JobRow). (s.job_id == r.job_id) ≡ false) rows × IsKeyed rows

-- A row of the table that can be claimed.
abbrev pub IsPicked : ℕ → ℕ → List JobRow → Option JobRow → Type 0
IsPicked now max_attempt rows none = Unit {0}
IsPicked now max_attempt rows (some r) =
    Any (λ s. s ≡ r) rows × (is_claimable now max_attempt r ≡ true)

IsPicked-later :
    (now max_attempt : ℕ) (r : JobRow) (rows : List JobRow) (o : Option JobRow)
    → IsPicked now max_attempt rows o
    → IsPicked now max_attempt (r ∷ rows) o
IsPicked-later now max_attempt r rows none h = tt
IsPicked-later now max_attempt r rows (some s) h = (inr h.0, h.1)

better-IsPicked :
    (now max_attempt : ℕ) (r : JobRow) (rows : List JobRow) (o : Option JobRow)
    → is_claimable now max_attempt r ≡ true
    → IsPicked now max_attempt rows o
    → IsPicked now max_attempt (r ∷ rows) (better r o)
better-IsPicked now max_attempt r rows none claimable h = (inl refl, claimable)
better-IsPicked now max_attempt r rows (some s) claimable h = elim (Bool-cases (goes_before s r)) [
  | inl first ↦ rw first (inr h.0, h.1)
  | inr after ↦ rw after (inl refl, claimable)
]

pub pick_job-IsPicked :
    (now max_attempt : ℕ) (rows : List JobRow)
    → IsPicked now max_attempt rows (pick_job now max_attempt rows)
unfolding pick_job
pick_job-IsPicked now max_attempt [] = tt
pick_job-IsPicked now max_attempt (r ∷ rows) =
    let later = pick_job-IsPicked now max_attempt rows in
    elim (Bool-cases (is_claimable now max_attempt r)) [
      | inl open_job ↦ rw open_job (better-IsPicked now max_attempt r rows _ open_job later)
      | inr held ↦ rw held (IsPicked-later now max_attempt r rows _ later)
    ]

-- No claim before some time can take a row of this job.
abbrev pub HeldRow : String → ℕ → JobRow → Type 0
HeldRow id expiry r =
    (r.job_id == id) ≡ true
    → (now max_attempt : ℕ) → now < expiry
    → is_claimable now max_attempt r ≡ false

abbrev pub IsHeld : String → ℕ → List JobRow → Type 0
IsHeld id expiry rows = All (HeldRow id expiry) rows

other_id :
    (r : JobRow) (x : JobRow) (rows : List JobRow)
    → All (λ (s : JobRow). (s.job_id == x.job_id) ≡ false) rows
    → Any (λ s. s ≡ r) rows
    → (r.job_id == x.job_id) ≡ false
other_id r x [] h nowhere = elim nowhere [ ]
other_id r x (s ∷ rows) h (inl same) =
    subst (λ (u : JobRow). (u.job_id == x.job_id) ≡ false) same h.0
other_id r x (s ∷ rows) h (inr later) = other_id r x rows h.1 later

apart_rows :
    (r x : JobRow) (rows : List JobRow)
    → x ≡ r
    → All (λ (s : JobRow). (s.job_id == x.job_id) ≡ false) rows
    → All (λ (s : JobRow). (s.job_id == r.job_id) ≡ true → s ≡ r) rows
apart_rows r x [] same h = tt
apart_rows r x (s ∷ rows) same h = (
  λ e.
      let differs : (s.job_id == r.job_id) ≡ false =
        subst (λ (u : JobRow). (s.job_id == u.job_id) ≡ false) same h.0 in
      cc,
  apart_rows r x rows same h.1,
)

-- The only row with the key of a row of the table is that row.
same_row :
    (r : JobRow) (rows : List JobRow)
    → IsKeyed rows
    → Any (λ s. s ≡ r) rows
    → All (λ (s : JobRow). (s.job_id == r.job_id) ≡ true → s ≡ r) rows
same_row r [] keyed nowhere = elim nowhere [ ]
same_row r (x ∷ rows) keyed (inl same) = (λ e. same, apart_rows r x rows same keyed.0)
same_row r (x ∷ rows) keyed (inr later) = (
  λ e.
      let ids : x.job_id ≡ r.job_id = (eq_iff x.job_id r.job_id).0 e in
      let differs = other_id r x rows keyed.0 later in
      let equal : (r.job_id == x.job_id) ≡ true = (eq_iff r.job_id x.job_id).1 (sym ids) in cc,
  same_row r rows keyed.1 later,
)

module _ (now lease_ms max_attempt : ℕ) (consumer : String) where
  taken-HeldRow :
      (r : JobRow) (id : String) → HeldRow id (now + lease_ms) (taken now lease_ms consumer r)
  taken-HeldRow r id = λ e later max_later before. ground (arith, before)

  update_row-HeldRow :
      (r x : JobRow)
      → is_claimable now max_attempt r ≡ true
      → ((x.job_id == r.job_id) ≡ true → x ≡ r)
      → HeldRow r.job_id (now + lease_ms) (update_row now lease_ms max_attempt consumer r x)
  update_row-HeldRow r x claimable key =
      elim (Bool-cases (x.job_id == r.job_id && is_claimable now max_attempt x)) [
        | inl hit ↦
            subst (HeldRow r.job_id (now + lease_ms))
              (λ i. if (sym hit) i then taken now lease_ms consumer x else x)
              (taken-HeldRow x r.job_id)
        | inr miss ↦
            subst (HeldRow r.job_id (now + lease_ms))
              (λ i. if (sym miss) i then taken now lease_ms consumer x else x)
              (λ e later max_later before.
                let open_row : is_claimable now max_attempt x ≡ true =
                  subst (λ u. is_claimable now max_attempt u ≡ true) (sym (key e)) claimable in
                let impossible : (x.job_id == r.job_id && is_claimable now max_attempt x) ≡ true =
                  ground (arith, e, open_row) in
                cc)
      ]

  update_rows-IsHeld :
      (r : JobRow) (rows : List JobRow)
      → is_claimable now max_attempt r ≡ true
      → All (λ (s : JobRow). (s.job_id == r.job_id) ≡ true → s ≡ r) rows
      → IsHeld r.job_id (now + lease_ms) (map (update_row now lease_ms max_attempt consumer r) rows)
  update_rows-IsHeld r [] claimable key = tt
  update_rows-IsHeld r (x ∷ rows) claimable key =
      (update_row-HeldRow r x claimable key.0, update_rows-IsHeld r rows claimable key.1)

  -- A claim leaves its job held for the length of the lease.
  pub claimed-IsHeld :
      (rows after : List JobRow) (o : Option JobRow) (got : JobRow)
      → IsKeyed rows
      → IsPicked now max_attempt rows o
      → update_rows now lease_ms max_attempt consumer rows o ≡ (after, some got)
      → IsHeld got.job_id (now + lease_ms) after
  claimed-IsHeld rows after none got keyed picked e =
      let impossible : none ≡ some got = ap (λ p. p.1) e in cc
  claimed-IsHeld rows after (some r) got keyed picked e =
      let same : taken now lease_ms consumer r ≡ got = some_inj (ap (λ p. p.1) e) in
      subst (λ id. IsHeld id (now + lease_ms) after) (ap (λ (u : JobRow). u.job_id) same)
        (subst (IsHeld r.job_id (now + lease_ms)) (ap (λ p. p.0) e)
          (update_rows-IsHeld r rows picked.1 (same_row r rows keyed picked.0)))
