-- ===== src/Commands.antt =====
-- What the mutation commands of src/server/actions share: import-command.ts, membership-command.ts,
-- repository-command.ts and knowledge-command.ts are one path over four resources. With it the step-up
-- redirect of reauthentication-resume.ts and src/lib/auth/reauthentication-return-path.ts. What the
-- platform does (URLs, dates, `Number`) and what the backend answers are fields of a World.
pub mod Resources
pub mod Admission
pub mod Pauses
pub mod Fields
use evirion_engineering_memo.Prelude.{
  ℕ, ◌+◌, ◌*◌, Bool, true, false, not, List, [], ◌∷◌, ◌++◌, Option, none, some, Result, ok, err,
  Text, codes, text_eq, ◌==◌, if◌then◌else◌,
}
use evirion_engineering_memo.Prelude.Json.{Json}
use evirion_engineering_memo.Origin.{trim, resolve_safe_redirect}
use evirion_engineering_memo.Session.{
  StoredSession, ReadOutcome, anonymous, active, refused, read_session,
}
use evirion_engineering_memo.Guard.{
  Form, FormValue, string, file, Request, Environment, GuardResult, passed, stopped, threw,
  form_get, guard_mutation, session_binding_from,
}
use evirion_engineering_memo.ConsoleApi.{
  ConsoleError, ConsoleFailure, error, unsupported, unreachable, ConsoleResult, success, failure,
}
use evirion_engineering_memo.Reauth.State.{
  PendingDraft, PendingMutation, max_age_seconds, serialize_pending_mutation,
  is_reauthentication_fresh,
}

-- What the commands read of a SessionContext; the `session` member may be absent.
pub record Context : Type 0 where
  pub organization_id : Text
  pub session_id : Option Text
  pub fresh_until : Option Text

pub record World : Type 0 where
  pub environment : Environment
  -- JSON in base64url, both ways
  pub encode : Json → Text
  pub decode : Text → Option Json
  -- the clock in seconds and in milliseconds
  pub now : ℕ
  pub now_ms : ℕ
  -- encodeURIComponent
  pub encode_component : Text → Text
  -- a path with a search parameter set
  pub set_parameter : Text → Text → Text → Text
  -- a query without the parameters of these names
  pub without_parameters : List Text → Text → Text
  -- Date.parse
  pub parse_date : Text → Option ℕ
  -- `Number(raw)` where it is an integer and not negative
  pub integer_of : Text → Option ℕ
  -- fetchSessionContext, by the access token
  pub fetch_context : Text → ConsoleResult Context

-- A redirect to a path of the canonical origin, and the paused mutation that it stores.
pub record Response : Type 0 where
  pub location : Text
  pub stored : Option Text

pub record Scope : Type 0 where
  pub organization_id : Text
  pub access_token : Text

pub data Outcome (F : Type 0) : Type 0 where
  ready : Scope → F → Context → Outcome F
  rejected : Response → Outcome F
  crashed : Outcome F

-- canonicalRedirect
abbrev pub redirect : Text → Response
redirect path = record { location = resolve_safe_redirect (some path); stored = none }

-- back
unfoldable pub back : World → Text → Text → Response
back w path result = redirect (path ++ (codes "?result=" ++ w.encode_component result))

-- The text up to the first question mark, and what follows it.
unfoldable pub split_query : Text → Text × Option Text
split_query [] = ([], none)
split_query (c ∷ s) =
    let (path, query) = split_query s in if c == b'?' then ([], some s) else (c ∷ path, query)

abbrev pub with_query : Text → Text → Text
with_query path [] = path
with_query path (c ∷ query) = path ++ b'?' ∷ c ∷ query

abbrev pub return_query : World → Text → Option Text → Text
return_query w path none = path
return_query w path (some query) =
    with_query path (w.without_parameters (codes "reauth" ∷ codes "result" ∷ []) query)

abbrev pub return_from : World → Text × Option Text → Text
return_from w (path, query) =
    if text_eq (resolve_safe_redirect (some path)) (codes "/")
    then codes "/"
    else return_query w (resolve_safe_redirect (some path)) query

-- normalizeReturnPath
unfoldable pub normalize_return_path : World → Text → Text
normalize_return_path w candidate = elim (trim candidate) [
  | [] ↦ codes "/"
  | c ∷ s ↦ return_from w (split_query (c ∷ s))
]

-- reauthenticationResumePath
unfoldable pub reauthentication_resume_path : World → Text → Text
reauthentication_resume_path w return_path =
    w.set_parameter (normalize_return_path w return_path) (codes "reauth") (codes "required")

abbrev pub with_result : World → Text → Option Text → Text
with_result w path none = path
with_result w path (some []) = path
with_result w path (some (c ∷ result)) = w.set_parameter path (codes "result") (c ∷ result)

abbrev pub pending_of : World → PendingDraft → Text → PendingMutation
pending_of w draft session_id = record {
  draft = draft;
  provider_session_id = session_id;
  expires_at = w.now_ms + max_age_seconds * 1000;
}

-- redirectForReauthentication, with storePendingMutation
unfoldable pub redirect_for_reauthentication : World → PendingDraft → Text → Option Text → Response
redirect_for_reauthentication w draft session_id result = record {
  location =
      resolve_safe_redirect
        (some (with_result w (reauthentication_resume_path w draft.return_path) result));
  stored =
      some (serialize_pending_mutation w.environment.mac w.encode (pending_of w draft session_id));
}

-- A session identifier that is a text and is not empty.
abbrev pub step_up : World → PendingDraft → Option Text → Option Response
step_up w draft none = none
step_up w draft (some []) = none
step_up w draft (some (c ∷ id)) = some (redirect_for_reauthentication w draft (c ∷ id) none)

-- guardImportFreshness, guardMembershipFreshness, guardRepositoryFreshness and guardKnowledgeFreshness
unfoldable pub guard_freshness : World → Context → PendingDraft → Option Response
guard_freshness w context draft =
    if is_reauthentication_fresh w.parse_date context.fresh_until w.now_ms
    then none
    else step_up w draft context.session_id

-- `String(form.get(name) ?? "")`
abbrev pub text_of : Option FormValue → Text
text_of none = []
text_of (some (string s)) = s
text_of (some file) = codes "[object File]"

abbrev pub form_text : Text → Form → Text
form_text name form = text_of (form_get name form)

module _ {F : Type 0} (w : World) (fields : Form → Option F) (path : Form → Text) where
  abbrev pub begin_context : Text → Form → F → ConsoleResult Context → Outcome F
  begin_context access_token form f (failure e) =
      rejected (back w (path form) (codes "DEPENDENCY_UNAVAILABLE"))
  begin_context access_token form f (success context request_id) =
      ready (record { organization_id = context.organization_id; access_token = access_token }) f
        context

  abbrev pub begin_session : Form → F → ReadOutcome → Outcome F
  begin_session form f (active s generation) =
      begin_context s.access_token form f (w.fetch_context s.access_token)
  begin_session form f anonymous = rejected (redirect (codes "/auth/sign-in"))
  begin_session form f (refused reason clear) = rejected (redirect (codes "/auth/sign-in"))

  abbrev pub begin_fields : Request → Form → Option F → Outcome F
  begin_fields r form none = rejected (back w (path form) (codes "REQUEST_INVALID"))
  begin_fields r form (some f) = begin_session form f (read_session w.decode r.cookies w.now)

  abbrev pub begin_guarded : Request → GuardResult → Outcome F
  begin_guarded r (stopped e) = rejected (redirect (codes "/auth/sign-in"))
  begin_guarded r threw = crashed
  begin_guarded r (passed form binding) = begin_fields r form (fields form)

  -- The order that the four begin functions share.
  unfoldable pub begin_with : Request → Outcome F
  begin_with r =
      begin_guarded r
        (guard_mutation w.decode w.environment w.now (session_binding_from w.decode w.now) r)

-- What a command does with a failure that the backend published.
abbrev pub paused_or_back : World → Text → Text → Option Response → Response
paused_or_back w path code none = back w path code
paused_or_back w path code (some response) = response

abbrev pub context_session : Option Context → Option Text
context_session none = none
context_session (some context) = context.session_id

abbrev pub pause : World → Option PendingDraft → Option Context → Option Response
pause w none context = none
pause w (some draft) context = step_up w draft (context_session context)

-- The failures of finishImportCommand and of the three others.
unfoldable pub finish_failure :
    World → Text → Option PendingDraft → Option Context → ConsoleFailure → Response
finish_failure w path draft context (error e status) =
    if text_eq e.code (codes "REAUTHENTICATION_REQUIRED")
    then paused_or_back w path e.code (pause w draft context)
    else back w path e.code
finish_failure w path draft context (unsupported status) =
    back w path (codes "UNSUPPORTED_SERVER_RESPONSE")
finish_failure w path draft context unreachable = back w path (codes "DEPENDENCY_UNAVAILABLE")
