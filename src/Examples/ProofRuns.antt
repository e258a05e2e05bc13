-- ===== src/Examples/ProofRuns.antt =====
-- Runs of src/lib/security and of src/server/actions/mutation-guard.ts.
use evirion_engineering_memo.Prelude.{
  ◌≡◌, ◌<◌, ◌↔◌, ◌⊎◌, refl, ◌+◌, true, false, [], ◌∷◌, Option, some, Text, codes, text_eq, includes,
  split_last, if◌then◌else◌, leb,
}
use evirion_engineering_memo.Prelude.Json.{Json, get, get_field}
use evirion_engineering_memo.Cookies.{Cookies, session_cookie_base, valid as held}
use evirion_engineering_memo.Cookies.Parse.{lookup, parse_session_cookies}
use evirion_engineering_memo.Session.{
  StoredSession, active, read_session, stored_session, session_fields, session_json,
}
use evirion_engineering_memo.Csrf.{
  Binding, pre_auth, session, Payload, Mac, valid, invalid, expired, binding_mismatch, binding_json,
  payload_json, payload_of, canonical_json, canonical_binding, template, to_text, issued_payload,
  issued_body, issue_token, verify_token,
}
use evirion_engineering_memo.Csrf.Verify.{IsProof, verify_token-IsProof, verify_token-issue_token}
use evirion_engineering_memo.Csrf.Bindings.{canonical_binding-injective}
use evirion_engineering_memo.Origin.{
  Headers, MutationRequest, allowed, rejected, untrusted_forwarding_header, method_not_allowed,
  assert_mutation_origin, derive_effective_origin, check_headers, forwarding_headers,
  state_changing_methods, allowed_modes, allowed_content_types, to_upper_case, to_lower_case,
  base_content_type, trim, trim_start, trim_end, is_space, before, resolve_safe_redirect,
}
use evirion_engineering_memo.Origin.Laws.{
  IsSameOrigin, assert_mutation_origin_iff, forwarded_directly-rejected, IsSafePath,
  resolve_safe_redirect-IsSafePath,
}
use evirion_engineering_memo.Guard.{
  Form, string, Request, Environment, passed, form_get, mutation_request, csrf_cookie_of,
  session_csrf_cookie, guard_mutation, session_binding_from,
}
use evirion_engineering_memo.Guard.Laws.{guard_mutation-passed, guard_mutation-session}
use evirion_engineering_memo.Examples.CookieRuns.{
  sample, generation, session_jar, session_jar-valid,
}

abbrev pub mac : Mac
mac = record { sign = λ body. codes "sig"; verify = λ signature body. some true }

abbrev proof_payload : Payload
proof_payload = record {
  b = binding_json (session (codes "p"));
  n = codes "n";
  iat = 1000;
  exp = 1060;
}

abbrev pub encode : Json → Text
encode j = codes "body"

-- The body of a proof, and else the session.
abbrev pub decode : Text → Option Json
decode t =
    if text_eq t (codes "body")
    then some (payload_json proof_payload)
    else some (session_json sample)

abbrev pub token : Text
token = codes "body.sig"

token-decoded :
    decode (issued_body encode (codes "n") (session (codes "p")) 1000 60)
    ≡ some (payload_json (issued_payload (codes "n") (session (codes "p")) 1000 60))
unfolding text_eq
token-decoded = refl

verify_token-issue_token_example :
    verify_token mac decode
      (some (issue_token mac encode (codes "n") (session (codes "p")) 1000 60))
      (some (issue_token mac encode (codes "n") (session (codes "p")) 1000 60))
      (session (codes "p"))
      1010
    ≡ (if leb (1000 + 60) 1010
        then invalid expired
        else if text_eq
            (canonical_binding (session (codes "p")))
            (canonical_binding (session (codes "p")))
        then valid (binding_json (session (codes "p")))
        else invalid binding_mismatch)
verify_token-issue_token_example =
    verify_token-issue_token mac encode decode (codes "n") (session (codes "p"))
      (session (codes "p")) 1000 60 1010 token-decoded (cc) refl (refl, (refl, (refl, tt)))

token-valid :
    verify_token mac decode (some token) (some token) (session (codes "p")) 1010
    ≡ valid (binding_json (session (codes "p")))
unfolding verify_token text_eq split_last payload_of payload_json get get_field canonical_json
    canonical_binding template to_text binding_json
token-valid = refl

verify_token-IsProof_example :
    (t : Text) × (some token ≡ some t)
    × (some token ≡ some t)
    × IsProof mac decode t (session (codes "p")) 1010 (binding_json (session (codes "p")))
verify_token-IsProof_example =
    verify_token-IsProof mac decode (some token) (some token) (session (codes "p")) 1010
      (binding_json (session (codes "p"))) token-valid

canonical_binding-injective_example :
    pre_auth (codes "t:1") (codes "e") 2 ≡ pre_auth (codes "t:1") (codes "e") 2
canonical_binding-injective_example =
    canonical_binding-injective (pre_auth (codes "t:1") (codes "e") 2)
      (pre_auth (codes "t:1") (codes "e") 2) (refl, tt) (refl, tt) refl

abbrev origin_text : Text
origin_text = codes "https://c"

abbrev jar : Cookies
jar = session_jar

abbrev same_origin_headers : Headers
same_origin_headers name = lookup name (
    (codes "x-forwarded-proto", codes "https")
    ∷ (codes "host", codes "c")
    ∷ (codes "origin", codes "https://c")
    ∷ (codes "sec-fetch-site", codes "same-origin")
    ∷ (codes "content-type", codes "multipart/form-data; boundary=x")
    ∷ [])

abbrev pub form : Form
form =
    (codes "csrfToken", string token)
    ∷ (codes "idempotencyKey", string (codes "00000000-0000-4000-8000-00000000d001"))
    ∷ []

abbrev pub request : Request
request = record {
  method = codes "POST";
  headers = same_origin_headers;
  cookies = jar;
  form = some form;
}

abbrev pub environment : Environment
environment = record { canonical_origin = origin_text; trusted_proxy_hops = 1; mac = mac }

pub request-allowed :
    assert_mutation_origin (mutation_request environment request) origin_text ≡ allowed origin_text
unfolding assert_mutation_origin derive_effective_origin check_headers forwarding_headers
    state_changing_methods allowed_modes allowed_content_types to_upper_case to_lower_case
    base_content_type trim trim_start trim_end is_space before includes text_eq lookup
request-allowed = refl

assert_mutation_origin_iff_example :
    (assert_mutation_origin (mutation_request environment request) origin_text
      ≡ allowed origin_text)
    ↔ (IsSameOrigin (mutation_request environment request) origin_text
        × (origin_text ≡ origin_text))
assert_mutation_origin_iff_example =
    assert_mutation_origin_iff (mutation_request environment request) origin_text origin_text

abbrev direct : MutationRequest
direct = record { method = codes "POST"; headers = same_origin_headers; via_trusted_proxy = false }

forwarded_directly-rejected_example :
    (assert_mutation_origin direct origin_text ≡ rejected method_not_allowed)
    ⊎ (assert_mutation_origin direct origin_text ≡ rejected untrusted_forwarding_header)
unfolding includes forwarding_headers text_eq lookup
forwarded_directly-rejected_example =
    forwarded_directly-rejected direct origin_text (codes "x-forwarded-proto") (codes "https") refl
      refl refl

resolve_safe_redirect-IsSafePath_example :
    IsSafePath (resolve_safe_redirect (some (codes "//evil")))
resolve_safe_redirect-IsSafePath_example = resolve_safe_redirect-IsSafePath (some (codes "//evil"))

abbrev bound : Cookies → Option Binding
bound cookies = some (session (codes "p"))

request-passed :
    guard_mutation decode environment 1010 bound request
    ≡ passed form (binding_json (session (codes "p")))
unfolding guard_mutation text_eq lookup form_get session_csrf_cookie
request-passed = rw (request-allowed, token-valid) refl

guard_mutation-passed_example :
    IsSameOrigin (mutation_request environment request) origin_text
    × (expected : Binding) × (t : Text) × (bound jar ≡ some expected)
    × (request.form ≡ some form)
    × (lookup (csrf_cookie_of expected) jar ≡ some t)
    × (form_get (codes "csrfToken") form ≡ some (string t))
    × IsProof mac decode t expected 1010 (binding_json (session (codes "p")))
guard_mutation-passed_example =
    guard_mutation-passed decode environment 1010 bound request form
      (binding_json (session (codes "p"))) request-passed

pub jar-active : read_session decode jar 1010 ≡ active sample generation
unfolding stored_session session_fields get_field text_eq read_session
jar-active = rw (session_jar-valid, read_session) refl

jar-bound : session_binding_from decode 1010 jar ≡ some (session (codes "p"))
unfolding session_binding_from
jar-bound = rw jar-active refl

pub request-passed_session :
    guard_mutation decode environment 1010 (session_binding_from decode 1010) request
    ≡ passed form (binding_json (session (codes "p")))
unfolding guard_mutation text_eq lookup form_get session_csrf_cookie
request-passed_session = rw (request-allowed, jar-bound, token-valid) refl

guard_mutation-session_example :
    (s : StoredSession) × (body : Text) × (g : Text) × (t : Text) × (parse_session_cookies
        session_cookie_base jar
      ≡ held body g)
    × (stored_session (decode body) ≡ some s)
    × (1010 < s.absolute_expires_at)
    × IsProof mac decode t (session s.provider_session_id) 1010 (binding_json (session (codes "p")))
guard_mutation-session_example =
    guard_mutation-session decode environment 1010 request form (binding_json (session (codes "p")))
      request-passed_session
