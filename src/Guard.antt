-- ===== src/Guard.antt =====
-- src/server/actions/mutation-guard.ts and src/server/actions/session-csrf.ts: the one boundary that
-- every state-changing route passes. `request.formData()` is a value, `none` where it throws; the
-- key's HMAC and the decoding of JSON and base64url are arguments, and so is the clock in seconds.
pub mod Laws
use evirion_engineering_memo.Prelude.{
  ℕ, Bool, true, false, ◌&&◌, List, [], ◌∷◌, Option, none, some, Text, codes, text_eq, ltb,
  if◌then◌else◌,
}
use evirion_engineering_memo.Prelude.Json.{Json}
use evirion_engineering_memo.Policy.{absolute_session_seconds}
use evirion_engineering_memo.Cookies.{Cookies}
use evirion_engineering_memo.Cookies.Parse.{lookup}
use evirion_engineering_memo.Session.{ReadOutcome, anonymous, active, refused, read_session}
use evirion_engineering_memo.Csrf.{
  Binding, pre_auth, session, Failure, Verification, valid, invalid, Mac, issue_token, verify_token,
}
use evirion_engineering_memo.Origin.{
  Headers, Rejection, OriginResult, allowed, rejected, MutationRequest, assert_mutation_origin,
  is_some,
}

-- FormDataEntryValue
pub data FormValue : Type 0 where
  string : Text → FormValue
  file : FormValue

abbrev pub Form : Type 0
Form = List (Text × FormValue)

pub record Request : Type 0 where
  pub method : Text
  pub headers : Headers
  pub cookies : Cookies
  pub form : Option Form

pub record Environment : Type 0 where
  pub canonical_origin : Text
  pub trusted_proxy_hops : ℕ
  pub mac : Mac

pub data GuardFailure : Type 0 where
  origin_refused : Rejection → GuardFailure
  csrf_refused : Failure → GuardFailure
  unauthenticated : GuardFailure

pub data GuardResult : Type 0 where
  passed : Form → Json → GuardResult
  stopped : GuardFailure → GuardResult
  threw : GuardResult

-- `form.get(name)`
unfoldable pub form_get : Text → Form → Option FormValue
form_get name [] = none
form_get name ((n, v) ∷ fs) = if text_eq n name then some v else form_get name fs

-- `typeof submitted === "string" ? submitted : undefined`
abbrev pub as_string : Option FormValue → Option Text
as_string (some (string s)) = some s
as_string _ = none

unfoldable pub pre_auth_csrf_cookie : Text
pre_auth_csrf_cookie = codes "__Host-console-pre-auth-csrf"

unfoldable pub session_csrf_cookie : Text
session_csrf_cookie = codes "__Host-console-session-csrf"

abbrev pub csrf_cookie_of : Binding → Text
csrf_cookie_of (pre_auth t e g) = pre_auth_csrf_cookie
csrf_cookie_of (session s) = session_csrf_cookie

-- viaTrustedProxy
abbrev pub via_trusted_proxy : Environment → Headers → Bool
via_trusted_proxy env headers =
    ltb 0 env.trusted_proxy_hops && is_some (headers (codes "x-forwarded-proto"))

abbrev pub mutation_request : Environment → Request → MutationRequest
mutation_request env r = record {
  method = r.method;
  headers = r.headers;
  via_trusted_proxy = via_trusted_proxy env r.headers;
}

abbrev pub guard_verification : Form → Verification → GuardResult
guard_verification form (invalid reason) = stopped (csrf_refused reason)
guard_verification form (valid b) = passed form b

abbrev pub verify_form :
    (Text → Option Json) → Environment → ℕ → Cookies → Binding → Form → Verification
verify_form decode env now cookies expected form =
    verify_token env.mac decode (lookup (csrf_cookie_of expected) cookies)
      (as_string (form_get (codes "csrfToken") form)) expected now

abbrev pub guard_form :
    (Text → Option Json) → Environment → ℕ → Cookies → Binding → Option Form → GuardResult
guard_form decode env now cookies expected none = threw
guard_form decode env now cookies expected (some form) =
    guard_verification form (verify_form decode env now cookies expected form)

abbrev pub guard_binding :
    (Text → Option Json) → Environment → ℕ → Request → Option Binding → GuardResult
guard_binding decode env now r none = stopped unauthenticated
guard_binding decode env now r (some expected) = guard_form decode env now r.cookies expected r.form

abbrev pub guard_origin :
    (Text → Option Json)
    → Environment
    → ℕ
    → (Cookies → Option Binding)
    → Request
    → OriginResult
    → GuardResult
guard_origin decode env now binding r (rejected reason) = stopped (origin_refused reason)
guard_origin decode env now binding r (allowed o) =
    guard_binding decode env now r (binding r.cookies)

-- guardMutation
unfoldable pub guard_mutation :
    (Text → Option Json) → Environment → ℕ → (Cookies → Option Binding) → Request → GuardResult
guard_mutation decode env now binding r =
    guard_origin decode env now binding r
      (assert_mutation_origin (mutation_request env r) env.canonical_origin)

abbrev pub session_binding : ReadOutcome → Option Binding
session_binding (active s generation) = some (session s.provider_session_id)
session_binding anonymous = none
session_binding (refused reason clear) = none

-- sessionBindingFrom
unfoldable pub session_binding_from : (Text → Option Json) → ℕ → Cookies → Option Binding
session_binding_from decode now cookies = session_binding (read_session decode cookies now)

-- issueSessionCsrfToken
abbrev pub issue_session_csrf_token : Mac → (Json → Text) → Text → ℕ → Text → Text
issue_session_csrf_token mac encode nonce now session_id =
    issue_token mac encode nonce (session session_id) now absolute_session_seconds
