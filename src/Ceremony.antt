-- ===== src/Ceremony.antt =====
-- The step-up ceremony: replayPendingMutation of src/server/actions/reauthentication-replay.ts, the ways
-- back of src/server/actions/reauthentication-resume.ts, and the routes under
-- src/app/api/session/reauthentication in the child modules. What URLs, request bodies and the Cookie
-- header carry over, the authentication provider and the backend's step-up answers are fields of a
-- Ceremony. A paused mutation is the JSON value that its signed cookie decodes to; its fields are an object.
pub mod Complete
pub mod Issue
pub mod Laws
pub mod Replays
pub mod Carried
pub mod Resumes
use evirion_engineering_memo.Prelude.{
  ℕ, Bool, true, false, not, List, [], ◌∷◌, Option, none, some, Text, codes, text_eq, if◌then◌else◌,
}
use evirion_engineering_memo.Prelude.Json.{Json, text, object, Fields, no_fields, field, get}
use evirion_engineering_memo.Origin.{Headers, resolve_safe_redirect}
use evirion_engineering_memo.Csrf.{to_text}
use evirion_engineering_memo.Cookies.{Cookies, CookieInstruction, cookie_attributes}
use evirion_engineering_memo.Cookies.Parse.{lookup}
use evirion_engineering_memo.Policy.{absolute_session_seconds}
use evirion_engineering_memo.Session.{
  StoredSession, ReadOutcome, active, anonymous, refused, read_session,
}
use evirion_engineering_memo.Guard.{Form, Request, issue_session_csrf_token, session_csrf_cookie}
use evirion_engineering_memo.ConsoleApi.{
  ConsoleFailure, error, unsupported, unreachable, ConsoleResult,
}
use evirion_engineering_memo.Reauth.{
  Gate, gate_of, ActionClass, Handler, switch, resolve_mutation_handler, is_allowed_mutation_path,
}
use evirion_engineering_memo.Reauth.State.{
  Read, nothing, raised as read_raised, found, set_field, read_pending_mutation,
  read_stored_challenge, pending_mutation_cookie, challenge_cookie,
}
use evirion_engineering_memo.Commands.{World, reauthentication_resume_path}
use evirion_engineering_memo.Adapters.{Call}
use evirion_engineering_memo.Routes.{Services, Reply, replied, raised}
use evirion_engineering_memo.Routes.Dispatch.{handle}

-- What verifyTotp returns.
pub record Verified : Type 0 where
  pub access_token : Text
  pub refresh_token : Text
  pub session_id : Text
  pub access_token_expires_at : ℕ

-- IssuedChallenge
pub record Challenge : Type 0 where
  pub challenge_id : Text
  pub action_class : Text
  pub expires_at : Text

pub record Ceremony : Type 0 where
  pub nonce : Text
  pub generation : Text
  pub encode_session : StoredSession → Text
  -- `new URL(origin).host`
  pub host_of : Text → Text
  -- the cookies that a request reads from a Cookie header of these
  pub resend : Cookies → Cookies
  -- `formData()` of a body of these URL-encoded fields
  pub read_back : List (Text × Text) → Option Form
  -- the origin, and the path with the query, of a Location
  pub parse_location : Text → Option (Text × Text)
  -- challengeTotp and verifyTotp, where their status is ok
  pub challenge_totp : Text → Option Text
  pub verify_totp : Text → Text → Text → Option Verified
  -- completeSessionReauthentication, by the access token, the action class and the challenge
  pub complete : Text → Option Json → Option Json → ConsoleResult Text
  -- issueSessionReauthentication, by the access token and the action class
  pub issue : Text → Option Json → ConsoleResult Challenge

-- The headers of the request that replays a mutation, but for its cookies.
unfoldable pub replay_headers : Ceremony → Text → Headers
replay_headers c canonical name =
    switch
      ((codes "content-type", codes "application/x-www-form-urlencoded")
        ∷ (codes "origin", canonical)
        ∷ (codes "host", c.host_of canonical)
        ∷ (codes "x-forwarded-proto", codes "https")
        ∷ (codes "x-forwarded-host", c.host_of canonical)
        ∷ (codes "sec-fetch-site", codes "same-origin")
        ∷ (codes "sec-fetch-mode", codes "navigate")
        ∷ [])
      name

-- `.filter(([, value]) => value !== "")`
unfoldable pub filled_entries : Cookies → Cookies
filled_entries [] = []
filled_entries ((name, []) ∷ jar) = filled_entries jar
filled_entries ((name, c ∷ value) ∷ jar) = (name, c ∷ value) ∷ filled_entries jar

unfoldable pub entries : Fields → List (Text × Text)
entries no_fields = []
entries (field name value fields) = (name, to_text value) ∷ entries fields

-- `...pending.fields`
abbrev pub paused_fields : Option Json → List (Text × Text)
paused_fields (some (object fields)) = entries fields
paused_fields _ = []

abbrev pub replay_request : World → Ceremony → Cookies → List (Text × Text) → Text → Request
replay_request w c jar fields token = record {
  method = codes "POST";
  headers = replay_headers c w.environment.canonical_origin;
  cookies = c.resend (filled_entries (set_field session_csrf_cookie token jar));
  form = c.read_back (set_field (codes "csrfToken") token fields);
}

abbrev pub text_member : Option Json → Option Text
text_member (some (text s)) = some s
text_member _ = none

abbrev pub gate_member : Option Text → Option Gate
gate_member none = none
gate_member (some s) = gate_of s

abbrev pub proof_for : World → Ceremony → StoredSession → Text
proof_for w c s =
    issue_session_csrf_token w.environment.mac w.encode c.nonce w.now s.provider_session_id

module _ (w : World) (api : Services) (c : Ceremony) (r : Request) where
  abbrev pub replay_session : Json → Handler → ReadOutcome → Reply
  replay_session pending h (active s generation) = handle w api h (
      replay_request w c r.cookies (paused_fields (get (codes "fields") pending)) (proof_for w c s))
  replay_session pending h anonymous = raised []
  replay_session pending h (refused reason clear) = raised []

  abbrev pub replay_handler : Json → Option Handler → Reply
  replay_handler pending none = raised []
  replay_handler pending (some h) = replay_session pending h (read_session w.decode r.cookies w.now)

  abbrev pub replay_path : Json → Option Gate → Option Text → Reply
  replay_path pending (some gate) (some path) =
      if is_allowed_mutation_path gate path
      then replay_handler pending (resolve_mutation_handler path)
      else raised []
  replay_path pending _ _ = raised []

  -- replayPendingMutation
  unfoldable pub replay_pending_mutation : Json → Reply
  replay_pending_mutation pending =
      replay_path pending (gate_member (text_member (get (codes "gate") pending)))
        (text_member (get (codes "mutationPath") pending))

-- INVALID_CHALLENGE and TOTP_REJECTED
abbrev pub invalid_challenge : Text
invalid_challenge = codes "CONSOLE_REAUTHENTICATION_INVALIDATED"

abbrev pub totp_rejected : Text
totp_rejected = codes "TOTP_REJECTED"

abbrev pub cleared : Text → CookieInstruction
cleared name = record { name = name; value = []; attributes = cookie_attributes; max_age = 0 }

abbrev pub ceremony_cookies : Text → List CookieInstruction
ceremony_cookies result =
    if text_eq result invalid_challenge then cleared challenge_cookie ∷ [] else []

-- A redirect with its cookies; `none` where building it throws.
abbrev pub Leave : Type 0
Leave = Option (Text × List CookieInstruction)

abbrev pub ceremony_path : World → Text → Option Text → Leave
ceremony_path w result none = none
ceremony_path w result (some return_path) = some (
  resolve_safe_redirect
      (some (w.set_parameter (reauthentication_resume_path w return_path) (codes "result") result)),
  ceremony_cookies result,
)

abbrev pub back_to : World → Text → Read → Leave
back_to w result read_raised = none
back_to w result nothing = some (codes "/", ceremony_cookies result)
back_to w result (found pending) =
    ceremony_path w result (text_member (get (codes "returnPath") pending))

-- redirectBackForCeremony
unfoldable pub redirect_back_for_ceremony : World → Request → Text → Leave
redirect_back_for_ceremony w r result = back_to w result (
    read_pending_mutation w.environment.mac w.decode (lookup pending_mutation_cookie r.cookies) none
      w.now_ms)

abbrev pub same_origin_path : Text → Option (Text × Text) → Option Text
same_origin_path canonical none = none
same_origin_path canonical (some (origin, path)) =
    if text_eq origin canonical then some (resolve_safe_redirect (some path)) else none

-- safeRedirectLocation
unfoldable pub safe_redirect_location : World → Ceremony → Text → Option Text
safe_redirect_location w c location =
    same_origin_path w.environment.canonical_origin (c.parse_location location)

abbrev pub session_id_of : ReadOutcome → Option Text
session_id_of (active s generation) = some s.provider_session_id
session_id_of anonymous = none
session_id_of (refused reason clear) = none

-- readPendingFromRequest
unfoldable pub read_pending_from_request : World → Request → Read
read_pending_from_request w r =
    read_pending_mutation w.environment.mac w.decode (lookup pending_mutation_cookie r.cookies)
      (session_id_of (read_session w.decode r.cookies w.now)) w.now_ms

-- readChallengeFromRequest
unfoldable pub read_challenge_from_request : World → Request → Read
read_challenge_from_request w r =
    read_stored_challenge w.environment.mac w.decode (lookup challenge_cookie r.cookies)

-- The code of a step-up failure.
abbrev pub failure_code : ConsoleFailure → Text
failure_code (error e status) = e.code
failure_code unreachable = codes "DEPENDENCY_UNAVAILABLE"
failure_code (unsupported status) = codes "UNSUPPORTED_SERVER_RESPONSE"

-- sessionCsrfCookie
abbrev pub session_proof_cookie : Text → CookieInstruction
session_proof_cookie token = record {
  name = session_csrf_cookie;
  value = token;
  attributes = cookie_attributes;
  max_age = absolute_session_seconds;
}
