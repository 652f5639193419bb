-- ===== src/Worker/ControlPlane.antt =====
-- workers/media-worker/src/media_worker/control_plane.py: the bearer tokens of a call, what the
-- requests carry and what is read from the answers. The HTTP exchange is given.
pub mod Rotation
pub mod Parsed
mod Tests
use open_video_trans.Common.{
  ℕ, ◌≡◌, String, Bool, true, false, not, ◌&&◌, ◌||◌, Option, none, some, List, [], ◌∷◌, ◌++◌, ◌==◌,
  eqb, if◌then◌else◌, contains, lookup, Result, ok, err, ◌>>=◌,
}
use open_video_trans.Common.Chars.{Text, strip, eq_text}

-- An answer of the server: a body, 409, or an error with its status when there is one.
pub data Reply : Type 0 where
  answered : Text → Reply
  stale_claim : Reply
  refused : Option ℕ → Reply

-- `_auth` and `_next_auth`
pub record Auth : Type 0 where
  pub auth : String
  pub next_auth : Option String

abbrev pub is_401 : Option ℕ → Bool
is_401 none = false
is_401 (some status) = eqb status 401

-- The token of the retry: the condition in the handler of `_call`.
unfoldable pub retry_with : Auth → Reply → Option String
retry_with snapshot (answered body) = none
retry_with snapshot stale_claim = none
retry_with snapshot (refused status) = if is_401 status then snapshot.next_auth else none

abbrev pub is_staged : Option String → String → Bool
is_staged none used = false
is_staged (some t) used = t == used

-- `_promote(used)`, under the lock.
unfoldable pub promote : String → Auth → Auth
promote used state =
    if is_staged state.next_auth used then record { auth = used; next_auth = none } else state

abbrev pub after_retry : String → Auth → Reply → Auth × Reply
after_retry used state (answered body) = (promote used state, answered body)
after_retry used state stale_claim = (state, stale_claim)
after_retry used state (refused status) = (state, refused status)

abbrev pub retried : (String → Reply) → Auth → Reply → Option String → Auth × Reply
retried send state first none = (state, first)
retried send state first (some t) = after_retry t state (send t)

-- `_call(method, path, body)` of one thread alone, for what the server answers to each bearer.
unfoldable pub call : (String → Reply) → Auth → Auth × Reply
call send state = retried send state (send state.auth) (retry_with state (send state.auth))

-- The calls of several threads: the shared tokens, and the snapshots of the calls in flight.
pub record Client : Type 0 where
  pub state : Auth
  pub in_flight : List Auth

-- A thread takes its snapshot, ends a call without a promotion, or promotes the token of a retry
-- that the server answered.
pub data ClientStep : Client → Client → Type 0 where
  begin_call :
      (c : Client) → ClientStep c (record { state = c.state; in_flight = c.state ∷ c.in_flight })
  end_call :
      (state snapshot : Auth) (before after : List Auth)
      → ClientStep
          (record { state = state; in_flight = before ++ snapshot ∷ after })
          (record { state = state; in_flight = before ++ after })
  promote_next :
      (state snapshot : Auth) (before after : List Auth) (first : Reply) (used : String)
      → retry_with snapshot first ≡ some used
      → ClientStep
          (record { state = state; in_flight = before ++ snapshot ∷ after })
          (record { state = promote used state; in_flight = before ++ after })

pub data ClientRun : Client → Client → Type 0 where
  start : (c : Client) → ClientRun c c
  next : (c d e : Client) → ClientRun c d → ClientStep d e → ClientRun c e

-- A value of a request body.
pub data BodyValue : Type 0 where
  number : ℕ → BodyValue
  name : String → BodyValue

-- `ProgressTelemetry`
pub record ProgressTelemetry : Type 0 where
  pub stage_elapsed_ms : Option ℕ
  pub provider : Option String
  pub chunk_index : Option ℕ
  pub chunk_count : Option ℕ
  pub free_pool_result : Option String

abbrev pub number_field : String → Option ℕ → List (String × BodyValue)
number_field key none = []
number_field key (some n) = (key, number n) ∷ []

abbrev pub name_field : String → Option String → List (String × BodyValue)
name_field key none = []
name_field key (some s) = (key, name s) ∷ []

abbrev pub telemetry_fields : Option ProgressTelemetry → List (String × BodyValue)
telemetry_fields none = []
telemetry_fields (some t) =
    number_field "stage_elapsed_ms" t.stage_elapsed_ms
    ++ name_field "provider" t.provider
    ++ number_field "chunk_index" t.chunk_index
    ++ number_field "chunk_count" t.chunk_count
    ++ name_field "free_pool_result" t.free_pool_result

unfoldable pub build_progress_body :
    ℕ → Option String → Option ProgressTelemetry → List (String × BodyValue)
build_progress_body claim_version stage telemetry =
    (("claim_version", number claim_version) ∷ [])
    ++ name_field "stage" stage
    ++ telemetry_fields telemetry

-- A value in the JSON of an answer, as far as the readers tell them apart.
pub data JsonValue : Type 0 where
  json_text : Text → JsonValue
  json_number : ℕ → JsonValue
  json_other : JsonValue

-- `R2Settings`
pub record R2Settings : Type 0 where
  pub account_id : Text
  pub bucket : Text
  pub access_key_id : Text
  pub secret_access_key : Text

pub data CredentialsError : Type 0 where
  missing_r2 : CredentialsError
  invalid_r2_field : String → CredentialsError

abbrev pub r2_value : String → Option JsonValue → Result CredentialsError Text
r2_value field (some (json_text value)) =
    if eq_text (strip value) [] then err (invalid_r2_field field) else ok value
r2_value field _ = err (invalid_r2_field field)

-- `r2_field(name)`
abbrev pub r2_field : List (String × JsonValue) → String → Result CredentialsError Text
r2_field r2 field = r2_value field (lookup field r2)

-- The settings of `parse_credentials(payload)`, for `payload.get("r2")` if it is a mapping.
unfoldable pub parse_r2 : Option (List (String × JsonValue)) → Result CredentialsError R2Settings
parse_r2 none = err missing_r2
parse_r2 (some r2) = do
  account ← r2_field r2 "accountId"
  bucket ← r2_field r2 "bucket"
  key ← r2_field r2 "accessKeyId"
  secret ← r2_field r2 "secretAccessKey"
  ok (record {
    account_id = account;
    bucket = bucket;
    access_key_id = key;
    secret_access_key = secret;
  })

-- `require_secure_base(base_url)`, for the scheme and the host name in lower case that `urlsplit`
-- finds.
unfoldable pub is_secure_base : String → String → Bool
is_secure_base scheme hostname =
    scheme == "https"
    || (scheme == "http" && contains hostname ("localhost" ∷ "127.0.0.1" ∷ "::1" ∷ []))

pub record ProviderSnapshot : Type 0 where
  pub now_ms : ℕ
  pub exhausted_until : List (String × ℕ)

abbrev pub numbers : List (String × JsonValue) → List (String × ℕ)
numbers [] = []
numbers ((provider, json_number until) ∷ raw) = (provider, until) ∷ numbers raw
numbers ((provider, json_text t) ∷ raw) = numbers raw
numbers ((provider, json_other) ∷ raw) = numbers raw

abbrev pub number_or_zero : Option JsonValue → ℕ
number_or_zero (some (json_number n)) = n
number_or_zero _ = 0

abbrev pub rows_or_empty : Option (List (String × JsonValue)) → List (String × JsonValue)
rows_or_empty none = []
rows_or_empty (some rows) = rows

-- `get_provider_availability()` on the answer: `exhausted_until` if it is a mapping, and `now_ms`.
unfoldable pub read_availability :
    Option (List (String × JsonValue)) → Option JsonValue → ProviderSnapshot
read_availability raw now = record {
  now_ms = number_or_zero now;
  exhausted_until = numbers (rows_or_empty raw);
}
