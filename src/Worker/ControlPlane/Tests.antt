-- ===== src/Worker/ControlPlane/Tests.antt =====
-- A rotation of the token, a progress body and the credentials.
use open_video_trans.Common.{
  ◌≡◌, refl, inl, String, false, none, some, List, [], ◌∷◌, ok, err, ◌==◌, if◌then◌else◌,
}
use open_video_trans.Common.Chars.{codes, strip, is_space}
use open_video_trans.Worker.ControlPlane.{
  Reply, answered, refused, retry_with, promote, call, Client, begin_call, promote_next, ClientRun,
  start, next, number, name, build_progress_body, JsonValue, json_text, json_other, R2Settings,
  invalid_r2_field, parse_r2, is_secure_base, read_availability,
}
use open_video_trans.Worker.ControlPlane.Rotation.{staged, rotated, IsRotating, run-IsRotating}

program : Unit {0}
unfolding is_space strip retry_with promote call build_progress_body parse_r2 is_secure_base
    read_availability
program = tt

abbrev rotated_server : String → Reply
rotated_server token = if token == "new" then answered [] else refused (some 401)

promoted : call rotated_server (staged "old" "new") ≡ (rotated "new", answered [])
unfolding program
promoted = refl

body :
    build_progress_body 3 none (
      some (record {
        stage_elapsed_ms = some 12;
        provider = none;
        chunk_index = none;
        chunk_count = none;
        free_pool_result = some "ok";
      }))
    ≡ ("claim_version", number 3)
      ∷ ("stage_elapsed_ms", number 12)
      ∷ ("free_pool_result", name "ok")
      ∷ []
unfolding program
body = refl

plaintext : is_secure_base "http" "example.org" ≡ false
unfolding program
plaintext = refl

abbrev payload : List (String × JsonValue)
payload =
    ("bucket", json_text (codes "media"))
    ∷ ("accountId", json_text (codes "acct"))
    ∷ ("accessKeyId", json_text (codes "key"))
    ∷ ("secretAccessKey", json_text (codes "secret"))
    ∷ []

abbrev settings : R2Settings
settings = record {
  account_id = codes "acct";
  bucket = codes "media";
  access_key_id = codes "key";
  secret_access_key = codes "secret";
}

parsed : parse_r2 (some payload) ≡ ok settings
unfolding program
parsed = refl

null_bucket :
    parse_r2 (some (("accountId", json_text (codes "a")) ∷ ("bucket", json_other) ∷ []))
    ≡ err (invalid_r2_field "bucket")
unfolding program
null_bucket = refl

abbrev idle : Client
idle = record { state = staged "old" "new"; in_flight = [] }

abbrev one_call : Client
one_call = record { state = staged "old" "new"; in_flight = staged "old" "new" ∷ [] }

abbrev two_calls : Client
two_calls = record {
  state = staged "old" "new";
  in_flight = staged "old" "new" ∷ staged "old" "new" ∷ [];
}

abbrev one_left : Client
one_left = record {
  state = promote "new" (staged "old" "new");
  in_flight = staged "old" "new" ∷ [];
}

abbrev both_done : Client
both_done = record { state = promote "new" (promote "new" (staged "old" "new")); in_flight = [] }

rejected : retry_with (staged "old" "new") (refused (some 401)) ≡ some "new"
unfolding program
rejected = refl

both_promote : ClientRun idle both_done
both_promote =
    next idle one_left both_done
      (next idle two_calls one_left
        (next idle one_call two_calls (next idle idle one_call (start idle) (begin_call idle))
          (begin_call one_call))
        (promote_next (staged "old" "new") (staged "old" "new") [] (staged "old" "new" ∷ [])
          (refused (some 401)) "new" rejected))
      (promote_next (promote "new" (staged "old" "new")) (staged "old" "new") [] []
        (refused (some 401)) "new" rejected)

run-IsRotating_example : IsRotating "old" "new" both_done
run-IsRotating_example = run-IsRotating "old" "new" idle both_done both_promote (inl refl, tt)
