-- ===== src/SignIn.antt =====
-- src/app/api/auth/verify-otp with the outcomes of src/lib/auth/auth-outcome.ts: the emailed code, and the
-- session that it opens. The provider, the backend's two operations, the HMAC of an address and the
-- signed bootstrap proof are fields of a Provider.
pub mod Laws
pub mod Checks
use evirion_engineering_memo.Prelude.{
  ℕ, ◌+◌, Bool, true, false, ◌&&◌, ◌||◌, not, List, [], ◌∷◌, ◌++◌, Option, none, some, Result, ok,
  err, Text, codes, text_eq, length, leb, ltb, all, is_digit, ◌==◌, if◌then◌else◌,
}
use evirion_engineering_memo.Prelude.Json.{Json, text, object, Fields, field, no_fields, get}
use evirion_engineering_memo.Policy.{absolute_session_seconds}
use evirion_engineering_memo.Cookies.{Cookies, CookieInstruction, BudgetError}
use evirion_engineering_memo.Cookies.Parse.{lookup}
use evirion_engineering_memo.Session.{StoredSession, write_session}
use evirion_engineering_memo.Csrf.{Binding, pre_auth}
use evirion_engineering_memo.Origin.{resolve_safe_redirect}
use evirion_engineering_memo.Guard.{
  Form, FormValue, string, file, Request, GuardResult, passed, stopped, threw, guard_mutation,
  form_get,
}
use evirion_engineering_memo.ConsoleApi.{
  ConsoleFailure, error, unsupported, unreachable, ConsoleResult, success, failure, is_text,
}
use evirion_engineering_memo.Identity.{
  VerifiedUser, AdmissionResult, admitted, denied, admit_verified_identity,
}
use evirion_engineering_memo.Commands.{World}
use evirion_engineering_memo.Ceremony.{Verified}
use evirion_engineering_memo.Proxy.{pre_auth_transaction_cookie, or_empty}
use evirion_engineering_memo.Logout.{clear_pre_auth_cookies}

-- PRE_AUTH_EMAIL_COOKIE
unfoldable pub pre_auth_email_cookie : Text
pre_auth_email_cookie = codes "__Host-console-pre-auth-eid"

-- AUTH_OUTCOMES
pub data AuthOutcome : Type 0 where
  verification_failed session_not_registered session_not_permitted factor_code_refused : AuthOutcome

-- What the bootstrap proof is signed over, with the request's body.
pub record Bootstrap : Type 0 where
  pub access_token : Text
  pub subject : Text
  pub session_id : Text
  pub pre_auth_transaction_id : Text
  pub invitation_id : Option Text
  pub idempotency_key : Text
  pub body : Json
  pub issued_at : ℕ

pub record Provider : Type 0 where
  -- hmacEmailIdentity
  pub hmac_email : Text → Text
  -- verifyEmailOtp, by the address and the code, where its status is ok
  pub verify_email_otp : Text → Text → Option Verified
  -- getUser, with the user's identifier
  pub get_user : Text → Option (Text × VerifiedUser)
  -- issuePreAuthTransaction, by the access token and the path
  pub issue_pre_auth : Text → Text → ConsoleResult Text
  -- signBootstrapProof
  pub sign_bootstrap : Bootstrap → Text
  -- bootstrapSession, by what is signed and the proof
  pub bootstrap : Bootstrap → Text → ConsoleResult Json
  pub idempotency_key : Text
  pub encode_session : StoredSession → Text
  pub generation : Text

-- Back to the sign-in with an outcome and the pre-auth cookies cleared, on with the session's cookies, or
-- an exception.
pub data SignedIn : Type 0 where
  turned_back : AuthOutcome → List CookieInstruction → SignedIn
  signed_in : Text → List CookieInstruction → SignedIn
  sign_in_threw : SignedIn

pub data Refusal : Type 0 where
  refused_for : AuthOutcome → Refusal
  thrown_out : Refusal

-- denied
abbrev pub refusal_reply : Refusal → SignedIn
refusal_reply (refused_for outcome) = turned_back outcome clear_pre_auth_cookies
refusal_reply thrown_out = sign_in_threw

abbrev pub and_then : {A : Type 0} → Result Refusal A → (A → SignedIn) → SignedIn
and_then (ok a) k = k a
and_then (err e) k = refusal_reply e

-- outcomeFor
unfoldable pub outcome_for : ConsoleFailure → AuthOutcome
outcome_for (error e status) =
    if leb 400 status && ltb status 500 then session_not_permitted else session_not_registered
outcome_for (unsupported status) = session_not_registered
outcome_for unreachable = session_not_registered

abbrev pub is_opaque_unit : ℕ → Bool
is_opaque_unit c =
    is_digit c || (leb b'a' c && leb c b'z') || (leb b'A' c && leb c b'Z') || c == b'_' || c == b'-'

-- OPAQUE_INVITATION_ID
unfoldable pub is_opaque_id : Text → Bool
is_opaque_id s = leb 1 (length s) && leb (length s) 128 && all is_opaque_unit s

abbrev pub invitation_of : Option FormValue → Option Text
invitation_of none = none
invitation_of (some file) = none
invitation_of (some (string s)) = if is_opaque_id s then some s else none

-- The path that issues the pre-auth transaction, with invitationAcceptancePath.
abbrev pub pre_auth_path : Option Text → Text
pre_auth_path none = codes "/v1/session/pre-auth"
pre_auth_path (some id) = codes "/v1/invitations/" ++ (id ++ codes "/accept")

abbrev pub invitation_fields : Option Text → Fields
invitation_fields none = no_fields
invitation_fields (some id) = field (codes "invitationId") (text id) no_fields

abbrev pub filled_binding : Text → Text → Option Binding
filled_binding [] email = none
filled_binding (c ∷ s) email = some (pre_auth (c ∷ s) email 1)

-- The binding that the route expects of its caller's cookies.
unfoldable pub pre_auth_binding_from : Cookies → Option Binding
pre_auth_binding_from cookies =
    filled_binding (or_empty (lookup pre_auth_transaction_cookie cookies))
      (or_empty (lookup pre_auth_email_cookie cookies))

abbrev pub failed_check : {A : Type 0} → Result Refusal A
failed_check = err (refused_for verification_failed)

abbrev pub guarded_form : GuardResult → Result Refusal (Form × Json)
guarded_form (passed form binding) =
    if is_text (codes "pre-auth") (get (codes "kind") binding)
    then ok (form, binding)
    else failed_check
guarded_form (stopped e) = failed_check
guarded_form threw = err thrown_out

abbrev pub field_text : Option FormValue → Result Refusal Text
field_text none = failed_check
field_text (some file) = failed_check
field_text (some (string s)) = ok s

abbrev pub checked : {A : Type 0} → Option A → Result Refusal A
checked none = failed_check
checked (some a) = ok a

abbrev pub answer_of : {A : Type 0} → ConsoleResult A → Result Refusal A
answer_of (success a request_id) = ok a
answer_of (failure e) = err (refused_for (outcome_for e))

abbrev pub admission_of : VerifiedUser → AdmissionResult → Result Refusal VerifiedUser
admission_of user admitted = ok user
admission_of user (denied reason) = failed_check

-- A file has no `startsWith`.
abbrev pub next_of : Option FormValue → Result Refusal Text
next_of none = ok (resolve_safe_redirect none)
next_of (some file) = err thrown_out
next_of (some (string s)) = ok (resolve_safe_redirect (some s))

abbrev pub target_of : Text → Text
target_of path = if text_eq path (codes "/") then codes "/auth/mfa/enroll" else path

abbrev pub write_sign_in : Text → Result BudgetError (List CookieInstruction) → SignedIn
write_sign_in target (ok cookies) = signed_in target (clear_pre_auth_cookies ++ cookies)
write_sign_in target (err e) = sign_in_threw

module _ (w : World) (p : Provider) (r : Request) where
  -- The session that a sign-in opens.
  abbrev pub opened : Verified → VerifiedUser → StoredSession
  opened verified user = record {
    access_token = verified.access_token;
    refresh_token = verified.refresh_token;
    provider_session_id = user.session_id;
    access_token_expires_at = verified.access_token_expires_at;
    absolute_expires_at = w.now + absolute_session_seconds;
  }

  abbrev pub bootstrap_of : Option Text → Verified → Text → VerifiedUser → Text → Bootstrap
  bootstrap_of invitation verified id user transaction = record {
    access_token = verified.access_token;
    subject = id;
    session_id = user.session_id;
    pre_auth_transaction_id = transaction;
    invitation_id = invitation;
    idempotency_key = p.idempotency_key;
    body = object (
        field (codes "deviceLabel") (text (codes "Console"))
          (field (codes "preAuthTransactionId") (text transaction) (invitation_fields invitation)));
    issued_at = w.now;
  }

  abbrev pub registered : Form → Verified → VerifiedUser → Json → SignedIn
  registered form verified user receipt =
      and_then (next_of (form_get (codes "next") form)) (λ target.
        write_sign_in (target_of target)
          (write_session p.encode_session p.generation (opened verified user) w.now))

  abbrev pub register : Form → Verified → Text → VerifiedUser → Text → SignedIn
  register form verified id user transaction =
      let b =
        bootstrap_of (invitation_of (form_get (codes "invitationId") form)) verified id user
          transaction in
      and_then (answer_of (p.bootstrap b (p.sign_bootstrap b))) (registered form verified user)

  abbrev pub issue : Form → Verified → Text → VerifiedUser → SignedIn
  issue form verified id user =
      and_then
        (answer_of (
          p.issue_pre_auth verified.access_token
            (pre_auth_path (invitation_of (form_get (codes "invitationId") form)))))
        (register form verified id user)

  abbrev pub admit : Form → Verified → Text × VerifiedUser → SignedIn
  admit form verified user =
      and_then (admission_of (user.1) (admit_verified_identity (user.1)))
        (issue form verified (user.0))

  abbrev pub identify : Form → Verified → SignedIn
  identify form verified =
      and_then (checked (p.get_user verified.access_token)) (admit form verified)

  -- The proof is bound to the address that the code was sent to.
  abbrev pub check_address : Json → Text → Result Refusal Text
  check_address binding email =
      if is_text (p.hmac_email email) (get (codes "emailIdentityHmac") binding)
      then ok email
      else failed_check

  abbrev pub check_email_code : Form → Text → Text → SignedIn
  check_email_code form code email =
      and_then (checked (p.verify_email_otp email code)) (identify form)

  abbrev pub with_code : Form → Json → Text → Text → SignedIn
  with_code form binding email code =
      and_then (check_address binding email) (check_email_code form code)

  abbrev pub with_email : Form → Json → Text → SignedIn
  with_email form binding email =
      and_then (field_text (form_get (codes "code") form)) (with_code form binding email)

  abbrev pub with_form : Form × Json → SignedIn
  with_form state =
      and_then (field_text (form_get (codes "email") (state.0))) (with_email (state.0) (state.1))

  -- POST of verify-otp
  unfoldable pub verify_otp : SignedIn
  verify_otp =
      and_then (guarded_form (guard_mutation w.decode w.environment w.now pre_auth_binding_from r))
        with_form
