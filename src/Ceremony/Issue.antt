-- ===== src/Ceremony/Issue.antt =====
-- The begin and issue routes of src/app/api/session/reauthentication: a challenge for a mutation that is
-- stored with it, or for one that is already paused. `expiresAt` and `actionClass` of a challenge are
-- the backend's. The platform's random keys are left out.
use evirion_engineering_memo.Prelude.{
  ◌||◌, not, List, [], ◌∷◌, Option, none, some, Text, codes, text_eq, if◌then◌else◌,
}
use evirion_engineering_memo.Prelude.Json.{Json, text, object, no_fields, field, get}
use evirion_engineering_memo.Session.{
  StoredSession, ReadOutcome, active, anonymous, refused, read_session,
}
use evirion_engineering_memo.Origin.{resolve_safe_redirect}
use evirion_engineering_memo.Guard.{
  Form, FormValue, string, Request, GuardResult, passed, stopped, threw, guard_mutation,
  session_binding_from, form_get,
}
use evirion_engineering_memo.ConsoleApi.{ConsoleResult, success, failure}
use evirion_engineering_memo.Reauth.{
  Gate, gate_of, action_class_for_gate, action_class_name, is_allowed_mutation_path,
}
use evirion_engineering_memo.Reauth.State.{
  PendingDraft, Read, nothing, raised as read_raised, found, form_fields_from, encode_signed,
}
use evirion_engineering_memo.Commands.{
  World, form_text, normalize_return_path, reauthentication_resume_path,
  redirect_for_reauthentication, with_result,
}
use evirion_engineering_memo.Ceremony.{
  Ceremony, Challenge, failure_code, read_pending_from_request, text_member,
}

-- A redirect, with the paused mutation and the challenge that it stores.
pub data Begun : Type 0 where
  begun : Text → Option Text → Option Text → Begun
  threw_begun : Begun

abbrev pub sign_in : Begun
sign_in = begun (codes "/auth/sign-in") none none

abbrev pub home : Begun
home = begun (codes "/") none none

-- `delete fields[name]`
unfoldable pub delete_field : Text → List (Text × Text) → List (Text × Text)
delete_field name [] = []
delete_field name ((n, v) ∷ fields) =
    let rest = delete_field name fields in if text_eq n name then rest else (n, v) ∷ rest

abbrev pub challenge_json : Challenge → Text → Json
challenge_json challenge session_id = object (
    field (codes "challengeId") (text challenge.challenge_id) (
      field (codes "actionClass") (text challenge.action_class) (
        field (codes "expiresAt") (text challenge.expires_at)
          (field (codes "providerSessionId") (text session_id) no_fields))))

-- storeChallenge, where a challenge was issued
abbrev pub stored_challenge : World → Text → ConsoleResult Challenge → Option Text
stored_challenge w session_id (success challenge request_id) =
    some (encode_signed w.environment.mac w.encode (challenge_json challenge session_id))
stored_challenge w session_id (failure e) = none

-- issueFailureCode, of a failure
abbrev pub issue_result : ConsoleResult Challenge → Option Text
issue_result (success challenge request_id) = none
issue_result (failure e) = some (failure_code e)

module _ (w : World) (c : Ceremony) (r : Request) where
  abbrev pub begin_paused : PendingDraft → StoredSession → ConsoleResult Challenge → Begun
  begin_paused draft s issued =
      let response =
        redirect_for_reauthentication w draft s.provider_session_id (issue_result issued) in
      begun response.location response.stored (stored_challenge w s.provider_session_id issued)

  abbrev pub begin_session : PendingDraft → ReadOutcome → Begun
  begin_session draft (active s generation) =
      begin_paused draft s
        (c.issue s.access_token (some (text (action_class_name draft.action_class))))
  begin_session draft anonymous = sign_in
  begin_session draft (refused reason clear) = sign_in

  abbrev pub ceremony_fields : Form → List (Text × Text)
  ceremony_fields form =
      delete_field (codes "mutationPath")
        (delete_field (codes "returnPath") (delete_field (codes "gate") (form_fields_from form)))

  abbrev pub begin_gate : Form → Text → Text → Option Gate → Begun
  begin_gate form return_path mutation_path none = home
  begin_gate form return_path mutation_path (some gate) =
      if text_eq return_path (codes "/")
        || text_eq mutation_path []
        || not (is_allowed_mutation_path gate mutation_path)
      then home
      else begin_session
          (record {
            return_path = return_path;
            mutation_path = mutation_path;
            fields = ceremony_fields form;
            gate = gate;
            action_class = action_class_for_gate gate;
          })
          (read_session w.decode r.cookies w.now)

  abbrev pub begin_guarded : GuardResult → Begun
  begin_guarded (stopped e) = sign_in
  begin_guarded threw = threw_begun
  begin_guarded (passed form binding) =
      begin_gate form (normalize_return_path w (form_text (codes "returnPath") form))
        (form_text (codes "mutationPath") form) (gate_of (form_text (codes "gate") form))

  -- POST of begin
  unfoldable pub begin_ceremony : Begun
  begin_ceremony =
      begin_guarded
        (guard_mutation w.decode w.environment w.now (session_binding_from w.decode w.now) r)

  abbrev pub issue_path : Text → ConsoleResult Challenge → Text
  issue_path return_path issued =
      resolve_safe_redirect
        (some (with_result w (reauthentication_resume_path w return_path) (issue_result issued)))

  abbrev pub issue_answer : Text → StoredSession → ConsoleResult Challenge → Begun
  issue_answer return_path s issued =
      begun (issue_path return_path issued) none (stored_challenge w s.provider_session_id issued)

  -- The action class and the return path; a return path that is not a text cannot be normalised.
  abbrev pub issue_for : Option Json → Option Text → ReadOutcome → Begun
  issue_for action_class return_path anonymous = sign_in
  issue_for action_class return_path (refused reason clear) = sign_in
  issue_for action_class none (active s generation) = threw_begun
  issue_for action_class (some path) (active s generation) =
      issue_answer path s (c.issue s.access_token action_class)

  abbrev pub gate_value : Option FormValue → Option Gate
  gate_value (some (string s)) = gate_of s
  gate_value _ = none

  abbrev pub submitted_path : Option FormValue → Text
  submitted_path (some (string s)) = normalize_return_path w s
  submitted_path _ = normalize_return_path w (codes "/")

  abbrev pub issue_unpaused : Form → Option Gate → Begun
  issue_unpaused form none = home
  issue_unpaused form (some gate) =
      issue_for (some (text (action_class_name (action_class_for_gate gate))))
        (some (submitted_path (form_get (codes "returnPath") form)))
        (read_session w.decode r.cookies w.now)

  abbrev pub issue_pending : Form → Read → Begun
  issue_pending form read_raised = threw_begun
  issue_pending form nothing = issue_unpaused form (gate_value (form_get (codes "gate") form))
  issue_pending form (found pending) =
      issue_for (get (codes "actionClass") pending) (text_member (get (codes "returnPath") pending))
        (read_session w.decode r.cookies w.now)

  abbrev pub issue_guarded : GuardResult → Begun
  issue_guarded (stopped e) = sign_in
  issue_guarded threw = threw_begun
  issue_guarded (passed form binding) = issue_pending form (read_pending_from_request w r)

  -- POST of issue
  unfoldable pub issue_challenge : Begun
  issue_challenge =
      issue_guarded
        (guard_mutation w.decode w.environment w.now (session_binding_from w.decode w.now) r)
