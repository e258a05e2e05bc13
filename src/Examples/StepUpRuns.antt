-- ===== src/Examples/StepUpRuns.antt =====
-- Runs of the step-up ceremony, of the commands and of the backend's answers.
use evirion_engineering_memo.Prelude.{
  ℕ, ◌≡◌, ◌<◌, ◌↔◌, ◌⊎◌, refl, true, false, [], Option, none, some, Text, codes, text_eq,
  split_last, is_digit, includes, if◌then◌else◌, arith,
}
use evirion_engineering_memo.Prelude.Json.{
  Json, text, object, no_fields, field, get, get_field, keys,
}
use evirion_engineering_memo.Guard.{form_get}
use evirion_engineering_memo.ConsoleApi.{
  ConsoleError, ConsoleFailure, error, answered, success, is_uuid, fits, uuid_places, envelope_keys,
  success_envelope, call_console_api,
}
use evirion_engineering_memo.ConsoleApi.Laws.{IsEnvelope, call_console_api-success}
use evirion_engineering_memo.Reauth.{
  Gate, Handler, resolve_mutation_handler, is_allowed_mutation_path,
}
use evirion_engineering_memo.Reauth.Paths.{resolve_mutation_handler_iff}
use evirion_engineering_memo.Reauth.State.{
  PendingDraft, PendingMutation, found, nothing, pending_json, decode_signed, read_pending_mutation,
  serialize_pending_mutation, is_reauthentication_fresh,
}
use evirion_engineering_memo.Reauth.State.Signed.{
  IsPaused, read_pending_mutation-IsPaused, read-serialize_pending_mutation,
}
use evirion_engineering_memo.Commands.{
  World, Context, Response, ready, begin_with, guard_freshness, redirect_for_reauthentication,
  pending_of, finish_failure, context_session,
}
use evirion_engineering_memo.Commands.Resources.{
  import_pending_mutation, membership_fields, settings_path, begin_membership_command,
}
use evirion_engineering_memo.Commands.Admission.{IsReady, begin_with-IsReady}
use evirion_engineering_memo.Commands.Pauses.{
  guard_freshness_iff, guard_freshness-resumes, finish_failure-stored,
}
use evirion_engineering_memo.Examples.ProofRuns.{
  mac, decode, encode, environment, request, form, jar-active, request-passed_session,
}

resolve_mutation_handler_iff_example :
    ((h : Handler) × (resolve_mutation_handler (codes "/api/imports/retry") ≡ some h))
    ↔ ((gate : Gate) × (is_allowed_mutation_path gate (codes "/api/imports/retry") ≡ true))
resolve_mutation_handler_iff_example = resolve_mutation_handler_iff (codes "/api/imports/retry")

abbrev envelope : Json
envelope = object (
    field (codes "contractVersion") (text (codes "1.0")) (
      field (codes "requestId") (text (codes "00000000-0000-4000-8000-00000000d001"))
        (field (codes "data") (text (codes "x")) no_fields)))

abbrev any_text : Json → Option Text
any_text j = some (codes "x")

abbrev no_error : Json → Option ConsoleError
no_error j = none

envelope-success :
    call_console_api no_error any_text (answered 200 (some envelope))
    ≡ success (codes "x") (codes "00000000-0000-4000-8000-00000000d001")
unfolding call_console_api success_envelope envelope_keys is_uuid fits uuid_places includes text_eq
    get_field is_digit keys
envelope-success = refl

call_console_api-success_example :
    (status : ℕ) × (body : Json) × (d : Json) × (answered 200 (some envelope)
      ≡ answered status (some body))
    × (status < 400)
    × IsEnvelope body d (codes "00000000-0000-4000-8000-00000000d001")
    × (any_text d ≡ some (codes "x"))
call_console_api-success_example =
    call_console_api-success no_error any_text (answered 200 (some envelope)) (codes "x")
      (codes "00000000-0000-4000-8000-00000000d001") envelope-success

abbrev context : Context
context = record { organization_id = codes "o"; session_id = some (codes "p"); fresh_until = none }

abbrev draft : PendingDraft
draft =
    import_pending_mutation (record { id = codes "r"; idempotency_key = codes "k"; form = form })
      (codes "/api/imports/retry")

abbrev pending : PendingMutation
pending = record { draft = draft; provider_session_id = codes "p"; expires_at = 601000 }

-- Decodes a body to the paused mutation, and the session cookie to the session.
abbrev decode_pending : Text → Option Json
decode_pending t = if text_eq t (codes "body") then some (pending_json pending) else decode t

abbrev pub world : World
world = record {
  environment = environment;
  encode = encode;
  decode = decode_pending;
  now = 1010;
  now_ms = 1000;
  encode_component = λ t. t;
  set_parameter = λ path name value. path;
  without_parameters = λ names query. query;
  parse_date = λ t. none;
  integer_of = λ t. none;
  fetch_context = λ access_token. success context (codes "q");
}

sig-verifies :
    mac.verify (mac.sign (encode (pending_json pending))) (encode (pending_json pending))
    ≡ some true
sig-verifies = refl

pending-decoded : decode_pending (encode (pending_json pending)) ≡ some (pending_json pending)
unfolding text_eq
pending-decoded = refl

read-serialize_pending_mutation_example :
    read_pending_mutation mac decode_pending
      (some (serialize_pending_mutation mac encode pending))
      (some (codes "p"))
      600999
    ≡ found (pending_json pending)
read-serialize_pending_mutation_example =
    read-serialize_pending_mutation mac encode decode_pending pending (some (codes "p")) 600999
      (refl, (refl, (refl, tt))) refl pending-decoded (cc) (cc) (omega arith) refl

pending-found :
    read_pending_mutation mac decode_pending (some (codes "body.sig")) (some (codes "p")) 600999
    ≡ found (pending_json pending)
unfolding read_pending_mutation decode_signed split_last text_eq get get_field
pending-found = refl

read_pending_mutation-IsPaused_example :
    IsPaused mac decode_pending (codes "body.sig") (some (codes "p")) 600999 (pending_json pending)
read_pending_mutation-IsPaused_example =
    read_pending_mutation-IsPaused mac decode_pending (codes "body.sig") (some (codes "p")) 600999
      (pending_json pending) pending-found

guard_freshness_iff_example : (guard_freshness world context draft ≡ none) ↔ (
    (is_reauthentication_fresh world.parse_date context.fresh_until world.now_ms ≡ true)
    ⊎ ((context.session_id ≡ none) ⊎ (context.session_id ≡ some [])))
guard_freshness_iff_example = guard_freshness_iff world context draft

abbrev stale : Response
stale = redirect_for_reauthentication world draft (codes "p") none

stale-paused : guard_freshness world context draft ≡ some stale
unfolding guard_freshness is_reauthentication_fresh
stale-paused = refl

guard_freshness-resumes_example :
    read_pending_mutation mac decode_pending stale.stored (some (codes "p")) 2000
    ≡ (if text_eq (codes "p") (codes "p") then found (pending_json pending) else nothing)
guard_freshness-resumes_example =
    guard_freshness-resumes world context draft stale (codes "p") (codes "p") 2000 stale-paused refl
      (refl, (refl, (refl, tt))) refl pending-decoded (cc) (omega arith)

abbrev asked : ConsoleFailure
asked =
    error
      (record {
        code = codes "REAUTHENTICATION_REQUIRED";
        retryable = false;
        request_id = codes "q";
        current_version = none;
        current_sequence = none;
      })
      403

abbrev stored_text : Text
stored_text = serialize_pending_mutation mac encode pending

asked-stored :
    (finish_failure world (codes "/p") (some draft) (some context) asked).stored ≡ some stored_text
unfolding finish_failure text_eq redirect_for_reauthentication
asked-stored = refl

finish_failure-stored_example :
    (x : ConsoleError) × (status : ℕ) × (d : PendingDraft) × (id : Text) × (asked ≡ error x status)
    × (x.code ≡ codes "REAUTHENTICATION_REQUIRED")
    × (some draft ≡ some d)
    × (context_session (some context) ≡ some id)
    × (stored_text ≡ serialize_pending_mutation mac encode (pending_of world d id))
finish_failure-stored_example =
    finish_failure-stored world (codes "/p") (some draft) (some context) asked stored_text
      asked-stored

abbrev command_world : World
command_world = record world { decode = decode }

abbrev command_key : Text
command_key = codes "00000000-0000-4000-8000-00000000d001"

membership_fields-form : membership_fields form ≡ some (command_key, form)
unfolding membership_fields form_get text_eq is_uuid fits uuid_places is_digit
membership_fields-form = refl

membership-ready :
    begin_membership_command command_world request
    ≡ ready
        (record { organization_id = codes "o"; access_token = codes "a" })
        (command_key, form)
        context
unfolding begin_with
membership-ready = rw (request-passed_session, membership_fields-form, jar-active) refl

begin_with-IsReady_example :
    IsReady command_world membership_fields request
      (record { organization_id = codes "o"; access_token = codes "a" })
      (command_key, form)
      context
begin_with-IsReady_example =
    begin_with-IsReady command_world membership_fields (λ f. settings_path) request
      (record { organization_id = codes "o"; access_token = codes "a" }) (command_key, form) context
      membership-ready
