-- ===== src/Csrf.antt =====
-- src/lib/security/csrf.ts: the signed double-submit proof. The MAC of the platform and the text form
-- of a payload (JSON and base64url) are arguments; the nonce is an argument too.
pub mod Verify
pub mod Bindings
use evirion_engineering_memo.Prelude.{
  ℕ, ◌+◌, Bool, true, false, List, [], ◌∷◌, ◌++◌, Option, none, some, Text, codes, decimal, text_eq,
  leb, ◌==◌, split_last, if◌then◌else◌,
}
use evirion_engineering_memo.Prelude.Json.{
  Json, null, boolean, number, text, array, object, Elements, no_elements, element, Fields,
  no_fields, field, get, get_field,
}

pub data Binding : Type 0 where
  pre_auth : Text → Text → ℕ → Binding
  session : Text → Binding

pub data Failure : Type 0 where
  malformed bad_signature expired binding_mismatch double_submit_mismatch : Failure

-- A binding that is valid is the one that the payload carries.
pub data Verification : Type 0 where
  valid : Json → Verification
  invalid : Failure → Verification

pub record Payload : Type 0 where
  pub b : Json
  pub n : Text
  pub iat : ℕ
  pub exp : ℕ

-- What the platform's HMAC does under one key: `sign` returns the signature in base64url, `verify`
-- takes such a text and a body; `none` is an exception.
pub record Mac : Type 0 where
  pub sign : Text → Text
  pub verify : Text → Text → Option Bool

-- `${value}`
unfoldable mutual
  pub to_text : Json → Text
  to_text null = codes "null"
  to_text (boolean true) = codes "true"
  to_text (boolean false) = codes "false"
  to_text (number n) = decimal n
  to_text (text t) = t
  to_text (array es) = join_elements es
  to_text (object fs) = codes "[object Object]"

  pub join_elements : Elements → Text
  join_elements no_elements = []
  join_elements (element null no_elements) = []
  join_elements (element j no_elements) = to_text j
  join_elements (element null (element k es)) = b',' ∷ join_elements (element k es)
  join_elements (element j (element k es)) = to_text j ++ b',' ∷ join_elements (element k es)

unfoldable pub template : Option Json → Text
unfolding to_text
template none = codes "undefined"
template (some j) = to_text j

abbrev pub pre_auth_text : Text → Text → Text → Text
pre_auth_text transaction_id email_hmac generation =
    codes "pre-auth:" ++ (transaction_id ++ b':' ∷ (email_hmac ++ b':' ∷ generation))

-- canonicalBinding
unfoldable pub canonical_binding : Binding → Text
canonical_binding (pre_auth t e g) = pre_auth_text t e (decimal g)
canonical_binding (session s) = codes "session:" ++ s

abbrev is_text : Text → Option Json → Bool
is_text s (some (text t)) = text_eq t s
is_text s _ = false

-- canonicalBinding of the binding that a payload carries.
unfoldable pub canonical_json : Json → Text
canonical_json b =
    if is_text (codes "pre-auth") (get (codes "kind") b)
    then pre_auth_text (template (get (codes "transactionId") b))
        (template (get (codes "emailIdentityHmac") b)) (template (get (codes "generation") b))
    else codes "session:" ++ template (get (codes "sessionId") b)

-- A binding as the object that is signed.
unfoldable pub binding_json : Binding → Json
binding_json (pre_auth t e g) = object (
    field (codes "kind") (text (codes "pre-auth")) (
      field (codes "transactionId") (text t) (
        field (codes "emailIdentityHmac") (text e)
          (field (codes "generation") (number g) no_fields))))
binding_json (session s) =
    object
      (field (codes "kind") (text (codes "session")) (field (codes "sessionId") (text s) no_fields))

-- What JSON.stringify is given.
unfoldable pub payload_json : Payload → Json
payload_json p = object (
    field (codes "b") p.b (
      field (codes "n") (text p.n)
        (field (codes "iat") (number p.iat) (field (codes "exp") (number p.exp) no_fields))))

-- `typeof value === "object" && value !== null`
abbrev is_object : Json → Bool
is_object (object fs) = true
is_object (array es) = true
is_object _ = false

abbrev typed_payload : Option Json → Option Json → Option Json → Option Json → Option Payload
typed_payload (some b) (some (text n)) (some (number iat)) (some (number exp)) =
    if is_object b then some (record { b = b; n = n; iat = iat; exp = exp }) else none
typed_payload _ _ _ _ = none

-- The checks of parsePayload on what is decoded.
unfoldable pub payload_of : Option Json → Option Payload
payload_of (some (object fs)) =
    typed_payload (get_field (codes "b") fs) (get_field (codes "n") fs) (get_field (codes "iat") fs)
      (get_field (codes "exp") fs)
payload_of _ = none

abbrev pub issued_payload : Text → Binding → ℕ → ℕ → Payload
issued_payload nonce binding issued_at lifetime_seconds = record {
  b = binding_json binding;
  n = nonce;
  iat = issued_at;
  exp = issued_at + lifetime_seconds;
}

-- The body of a token that is issued.
abbrev pub issued_body : (Json → Text) → Text → Binding → ℕ → ℕ → Text
issued_body encode nonce binding issued_at lifetime_seconds =
    encode (payload_json (issued_payload nonce binding issued_at lifetime_seconds))

-- issueCsrfToken
unfoldable pub issue_token : Mac → (Json → Text) → Text → Binding → ℕ → ℕ → Text
issue_token mac encode nonce binding issued_at lifetime_seconds =
    let body = issued_body encode nonce binding issued_at lifetime_seconds in
    body ++ b'.' ∷ mac.sign body

abbrev pub check_payload : Text → ℕ → Option Payload → Verification
check_payload expected now none = invalid malformed
check_payload expected now (some p) =
    if leb p.exp now
    then invalid expired
    else if text_eq (canonical_json p.b) expected
    then valid p.b
    else invalid binding_mismatch

abbrev check_signature : Text → ℕ → Option Payload → Option Bool → Verification
check_signature expected now payload none = invalid malformed
check_signature expected now payload (some false) = invalid bad_signature
check_signature expected now payload (some true) = check_payload expected now payload

-- The token split at its last dot; `separator <= 0` is no dot or an empty body.
abbrev pub check_parts : Mac → (Text → Option Json) → Text → ℕ → Option (Text × Text) → Verification
check_parts mac decode expected now none = invalid malformed
check_parts mac decode expected now (some ([], signature)) = invalid malformed
check_parts mac decode expected now (some (c ∷ body, signature)) =
    check_signature expected now (payload_of (decode (c ∷ body))) (mac.verify signature (c ∷ body))

-- verifyCsrfToken. The source compares the UTF-8 bytes of both tokens, without stopping early; a
-- cookie and a form field hold no lone surrogate, so the bytes are equal exactly if the texts are.
unfoldable pub verify_token :
    Mac → (Text → Option Json) → Option Text → Option Text → Binding → ℕ → Verification
verify_token mac decode (some (c ∷ cookie)) (some (d ∷ submitted)) expected now =
    if text_eq (c ∷ cookie) (d ∷ submitted)
    then check_parts mac decode (canonical_binding expected) now (split_last b'.' (c ∷ cookie))
    else invalid double_submit_mismatch
verify_token mac decode _ _ expected now = invalid malformed

-- `token.split(".")[0]`
unfoldable pub before_dot : Text → Text
before_dot [] = []
before_dot (c ∷ s) = if c == b'.' then [] else c ∷ before_dot s

abbrev bound_session : Option Payload → Option Json
bound_session none = none
bound_session (some p) =
    if is_text (codes "session") (get (codes "kind") p.b) then get (codes "sessionId") p.b else none

-- csrfBoundSessionId
unfoldable pub csrf_bound_session_id : (Text → Option Json) → Option Text → Option Json
csrf_bound_session_id decode none = none
csrf_bound_session_id decode (some token) = bound_session (payload_of (decode (before_dot token)))
