-- ===== src/Examples/SignInRuns.antt =====
-- A run of the sign-in, up to the cookies of the session.
use evirion_engineering_memo.Prelude.{
  ◌≡◌, refl, [], ◌∷◌, ◌++◌, List, Option, some, ok, Text, codes, text_eq, includes, split_last,
  decimal, byte_length,
}
use evirion_engineering_memo.Prelude.Json.{Json, get, get_field}
use evirion_engineering_memo.Cookies.{
  Cookies, CookieInstruction, is_generation, is_word, session_cookie_base,
}
use evirion_engineering_memo.Cookies.Serialize.{
  instructions_from, serialize_session_cookies, chunks_from, assert_budgets,
}
use evirion_engineering_memo.Cookies.Parse.{lookup}
use evirion_engineering_memo.Session.{clear_session, write_session, session_max_age}
use evirion_engineering_memo.Csrf.{
  pre_auth, valid, Payload, binding_json, payload_json, payload_of, canonical_json,
  canonical_binding, template, to_text, verify_token,
}
use evirion_engineering_memo.Guard.{
  Form, string, Request, passed, form_get, guard_mutation, pre_auth_csrf_cookie,
}
use evirion_engineering_memo.Origin.{resolve_safe_redirect}
use evirion_engineering_memo.ConsoleApi.{success}
use evirion_engineering_memo.Identity.{
  admitted, unique, without, allowed_providers, allowed_amr_methods, admit_verified_identity,
}
use evirion_engineering_memo.Commands.{World}
use evirion_engineering_memo.Policy.{absolute_session_seconds}
use evirion_engineering_memo.Proxy.{pre_auth_transaction_cookie}
use evirion_engineering_memo.Logout.{clear_pre_auth_cookies}
use evirion_engineering_memo.SignIn.{
  Provider, signed_in, pre_auth_binding_from, pre_auth_email_cookie, verify_otp, opened,
}
use evirion_engineering_memo.SignIn.Laws.{IsSignIn, verify_otp-IsSignIn}
use evirion_engineering_memo.Examples.AuthRuns.{reader}
use evirion_engineering_memo.Examples.CookieRuns.{generation, payload, chunk_values}
use evirion_engineering_memo.Examples.ProofRuns.{request, environment, token, mac, request-allowed}
use evirion_engineering_memo.Examples.RouteRuns.{route_world}
use evirion_engineering_memo.Examples.CeremonyRuns.{verified}

abbrev proof_payload : Payload
proof_payload = record {
  b = binding_json (pre_auth (codes "t") (codes "h") 1);
  n = codes "n";
  iat = 1000;
  exp = 1060;
}

abbrev decode_proof : Text → Option Json
decode_proof t = some (payload_json proof_payload)

abbrev sign_in_world : World
sign_in_world = record route_world { decode = decode_proof }

abbrev provider : Provider
provider = record {
  hmac_email = λ email. codes "h";
  verify_email_otp = λ email code. some verified;
  get_user = λ access_token. some (codes "u", reader);
  issue_pre_auth = λ access_token path. success (codes "x") (codes "q");
  sign_bootstrap = λ b. codes "proof";
  bootstrap = λ b proof. success (payload_json proof_payload) (codes "q");
  idempotency_key = codes "k";
  encode_session = λ s. payload;
  generation = generation;
}

abbrev sign_in_jar : Cookies
sign_in_jar =
    (pre_auth_transaction_cookie, codes "t")
    ∷ (pre_auth_email_cookie, codes "h")
    ∷ (pre_auth_csrf_cookie, token)
    ∷ []

abbrev sign_in_form : Form
sign_in_form =
    (codes "csrfToken", string token)
    ∷ (codes "email", string (codes "a@b"))
    ∷ (codes "code", string (codes "123456"))
    ∷ []

abbrev sign_in_request : Request
sign_in_request = record request { cookies = sign_in_jar; form = some sign_in_form }

sign_in-valid :
    verify_token mac decode_proof
      (some token)
      (some token)
      (pre_auth (codes "t") (codes "h") 1)
      1010
    ≡ valid (binding_json (pre_auth (codes "t") (codes "h") 1))
unfolding verify_token text_eq split_last payload_of payload_json get get_field canonical_json
    canonical_binding template to_text binding_json decimal
sign_in-valid = refl

sign_in-bound : pre_auth_binding_from sign_in_jar ≡ some (pre_auth (codes "t") (codes "h") 1)
unfolding pre_auth_binding_from lookup text_eq pre_auth_transaction_cookie pre_auth_email_cookie
sign_in-bound = refl

sign_in-passed :
    guard_mutation decode_proof environment 1010 pre_auth_binding_from sign_in_request
    ≡ passed sign_in_form (binding_json (pre_auth (codes "t") (codes "h") 1))
unfolding guard_mutation text_eq lookup form_get pre_auth_csrf_cookie pre_auth_transaction_cookie
    pre_auth_email_cookie
sign_in-passed = rw (request-allowed, sign_in-bound, sign_in-valid) refl

reader-admitted : admit_verified_identity reader ≡ admitted
unfolding admit_verified_identity unique without allowed_providers allowed_amr_methods includes
    text_eq
reader-admitted = refl

abbrev opened_cookies : List CookieInstruction
opened_cookies =
    clear_session ++ instructions_from session_cookie_base absolute_session_seconds 0 chunk_values

opened-written :
    write_session provider.encode_session generation
      (opened sign_in_world provider sign_in_request verified reader)
      1010
    ≡ ok opened_cookies
unfolding write_session session_max_age serialize_session_cookies chunks_from assert_budgets
    is_generation is_word decimal byte_length session_cookie_base
opened-written = refl

signed :
    verify_otp sign_in_world provider sign_in_request
    ≡ signed_in (codes "/auth/mfa/enroll") (clear_pre_auth_cookies ++ opened_cookies)
unfolding verify_otp form_get text_eq get get_field binding_json resolve_safe_redirect
signed = rw (sign_in-passed, reader-admitted, opened-written) refl

verify_otp-IsSignIn_example :
    IsSignIn sign_in_world provider sign_in_request
      (codes "/auth/mfa/enroll")
      (clear_pre_auth_cookies ++ opened_cookies)
verify_otp-IsSignIn_example =
    verify_otp-IsSignIn sign_in_world provider sign_in_request (codes "/auth/mfa/enroll")
      (clear_pre_auth_cookies ++ opened_cookies) signed
