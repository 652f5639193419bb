-- ===== src/ControlPlane/Claim.antt =====
-- apps/control-plane/spike/claim.py: the claim statement as a function on the table of jobs. Writes
-- are serialized, so a history of claims is a sequence of calls.
pub mod Exclusive
pub mod Lease
mod Tests
use open_video_trans.Common.{
  ℕ, ◌+◌, String, Bool, true, false, not, ◌&&◌, ◌||◌, Option, none, some, List, [], ◌∷◌, map, ◌==◌,
  ltb, leb, if◌then◌else◌,
}

pub data JobStatus : Type 0 where
  queued running finished : JobStatus

-- The columns of `jobs` that the statement reads or writes.
pub record JobRow : Type 0 where
  pub job_id : String
  pub status : JobStatus
  pub priority : ℕ
  pub enqueue_at : ℕ
  pub attempt : ℕ
  pub claim_version : ℕ
  pub lease_expires_at : Option ℕ
  pub started_at : Option ℕ
  pub current_stage : Option String
  pub claimed_by : Option String

-- `status = 'queued' OR (status = 'running' AND lease_expires_at <= now)`; NULL compares as false.
abbrev pub is_free : ℕ → JobStatus → Option ℕ → Bool
is_free now queued lease = true
is_free now running none = false
is_free now running (some lease) = leb lease now
is_free now finished lease = false

abbrev pub is_claimable : ℕ → ℕ → JobRow → Bool
is_claimable now max_attempt r =
    is_free now r.status r.lease_expires_at && ltb r.attempt max_attempt

-- `ORDER BY priority DESC, enqueue_at ASC`; of equals the earlier row stays.
abbrev pub goes_before : JobRow → JobRow → Bool
goes_before r s =
    ltb s.priority r.priority
    || (leb s.priority r.priority && leb r.priority s.priority && ltb r.enqueue_at s.enqueue_at)

abbrev pub better : JobRow → Option JobRow → Option JobRow
better r none = some r
better r (some s) = if goes_before s r then some s else some r

-- The inner SELECT.
unfoldable pub pick_job : ℕ → ℕ → List JobRow → Option JobRow
pick_job now max_attempt [] = none
pick_job now max_attempt (r ∷ rows) =
    let later = pick_job now max_attempt rows in
    if is_claimable now max_attempt r then better r later else later

-- `COALESCE(started_at, now)`
abbrev pub coalesce : Option ℕ → ℕ → Option ℕ
coalesce none now = some now
coalesce (some t) now = some t

-- The SET clause.
abbrev pub taken : ℕ → ℕ → String → JobRow → JobRow
taken now lease_ms consumer r = record {
  job_id = r.job_id;
  status = running;
  priority = r.priority;
  enqueue_at = r.enqueue_at;
  attempt = r.attempt + 1;
  claim_version = r.claim_version + 1;
  lease_expires_at = some (now + lease_ms);
  started_at = coalesce r.started_at now;
  current_stage = some "claimed";
  claimed_by = some consumer;
}

-- The outer WHERE, with the guard repeated.
abbrev pub update_row : ℕ → ℕ → ℕ → String → JobRow → JobRow → JobRow
update_row now lease_ms max_attempt consumer chosen r =
    if r.job_id == chosen.job_id && is_claimable now max_attempt r
    then taken now lease_ms consumer r
    else r

abbrev pub update_rows :
    ℕ → ℕ → ℕ → String → List JobRow → Option JobRow → List JobRow × Option JobRow
update_rows now lease_ms max_attempt consumer rows none = (rows, none)
update_rows now lease_ms max_attempt consumer rows (some r) = (
  map (update_row now lease_ms max_attempt consumer r) rows,
  some (taken now lease_ms consumer r),
)

-- `claim_one(conn, consumer=…, now_ms=…, lease_ms=…, max_attempt=…)`: the table, and the row that
-- is returned, of which the source keeps the id, the version and the attempt.
unfoldable pub claim_one : ℕ → ℕ → ℕ → String → List JobRow → List JobRow × Option JobRow
claim_one now lease_ms max_attempt consumer rows =
    update_rows now lease_ms max_attempt consumer rows (pick_job now max_attempt rows)

-- A call of `claim_one`, and the rows that a sequence of calls returns.
pub record Request : Type 0 where
  pub now_ms : ℕ
  pub lease_ms : ℕ
  pub max_attempt : ℕ
  pub consumer : String

abbrev pub claim_for : Request → List JobRow → List JobRow × Option JobRow
claim_for q rows = claim_one q.now_ms q.lease_ms q.max_attempt q.consumer rows

abbrev pub with_row : Option JobRow → List JobRow → List JobRow
with_row none rows = rows
with_row (some r) rows = r ∷ rows

unfoldable pub run_claims : List Request → List JobRow → List JobRow
run_claims [] rows = []
run_claims (q ∷ requests) rows =
    with_row (claim_for q rows).1 (run_claims requests (claim_for q rows).0)
