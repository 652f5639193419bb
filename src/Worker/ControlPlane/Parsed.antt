-- ===== src/Worker/ControlPlane/Parsed.antt =====
-- What a parse of credentials and a progress body vouch for.
use open_video_trans.Common.{
  ◌≡◌, ap, subst, String, false, Option, none, some, List, [], Bool-cases, inl, inr, lookup, ok,
  err, >>=-eq-ok, ok_inj,
}
use open_video_trans.Common.Chars.{Text, strip, eq_text}
use open_video_trans.Worker.ControlPlane.{
  JsonValue, json_text, json_number, json_other, R2Settings, CredentialsError, r2_value, r2_field,
  parse_r2,
}

-- A setting is the text that the payload has under a name, and is not blank.
abbrev pub IsField : List (String × JsonValue) → String → Text → Type 0
IsField r2 field value =
    (lookup field r2 ≡ some (json_text value)) × (eq_text (strip value) [] ≡ false)

r2_value-IsField :
    (field : String) (found : Option JsonValue) (value : Text)
    → r2_value field found ≡ ok value
    → (found ≡ some (json_text value)) × (eq_text (strip value) [] ≡ false)
r2_value-IsField field none value e = cc
r2_value-IsField field (some (json_number n)) value e = cc
r2_value-IsField field (some json_other) value e = cc
r2_value-IsField field (some (json_text t)) value e = elim (Bool-cases (eq_text (strip t) [])) [
  | inl blank ↦
      let raised : err (CredentialsError.invalid_r2_field field) ≡ ok value = rw blank at e in cc
  | inr given ↦
      let same : t ≡ value = ok_inj (rw given at e) in
      (ap (λ u. some (json_text u)) same, subst (λ u. eq_text (strip u) [] ≡ false) same given)
]

-- Credentials are read only if each of the four settings of the store is a text in the payload
-- that is not blank, and are those texts.
pub parse_r2_lem :
    (r2 : List (String × JsonValue)) (settings : R2Settings)
    → parse_r2 (some r2) ≡ ok settings
    → IsField r2 "accountId" settings.account_id
      × IsField r2 "bucket" settings.bucket
      × IsField r2 "accessKeyId" settings.access_key_id
      × IsField r2 "secretAccessKey" settings.secret_access_key
unfolding parse_r2
parse_r2_lem r2 settings e =
    let (account, e1, r1) = >>=-eq-ok (r2_field r2 "accountId") _ e in
    let (bucket, e2, r2') = >>=-eq-ok (r2_field r2 "bucket") _ r1 in
    let (key, e3, r3) = >>=-eq-ok (r2_field r2 "accessKeyId") _ r2' in
    let (secret, e4, same) = >>=-eq-ok (r2_field r2 "secretAccessKey") _ r3 in
    subst
      (λ (s : R2Settings).
        IsField r2 "accountId" s.account_id
        × IsField r2 "bucket" s.bucket
        × IsField r2 "accessKeyId" s.access_key_id
        × IsField r2 "secretAccessKey" s.secret_access_key)
      (ok_inj same)
      (
        r2_value-IsField "accountId" _ account e1,
        r2_value-IsField "bucket" _ bucket e2,
        r2_value-IsField "accessKeyId" _ key e3,
        r2_value-IsField "secretAccessKey" _ secret e4,
      )
