-- ===== src/Examples/CeremonyRuns.antt =====
-- Runs of the step-up ceremony, up to the replayed mutation.
use evirion_engineering_memo.Guard.{
  Request, passed, form_get, session_csrf_cookie, guard_mutation, session_binding_from,
  mutation_request, Form,
}
use evirion_engineering_memo.Commands.{begin_with, guard_freshness, ready}
use evirion_engineering_memo.Commands.Resources.{membership_fields, begin_membership_command}
use evirion_engineering_memo.ConsoleApi.{is_uuid, fits, uuid_places, success, failure, unreachable}
use evirion_engineering_memo.Reauth.{
  mutation_paths_for_gate, offboarding_request, resolve_mutation_handler, is_allowed_mutation_path,
  switch, handlers,
}
use evirion_engineering_memo.Reauth.State.{
  collect_fields, is_reauthentication_fresh, pending_json, pending_mutation_cookie,
  challenge_cookie, decode_signed, read_pending_mutation, set_field, found,
}
use evirion_engineering_memo.Adapters.{command, template as path_template}
use evirion_engineering_memo.Routes.Settings
use evirion_engineering_memo.Origin.{
  trim, trim_start, trim_end, allowed, assert_mutation_origin, rejected,
  untrusted_forwarding_header,
}
use evirion_engineering_memo.Examples.RouteRuns.{
  route_context, challenge_value, organization, route_form, route_request, paused, decode_ceremony,
  route_world, services,
}
use evirion_engineering_memo.Prelude.{
  ◌⊎◌, includes, true, ◌≡◌, refl, [], none, some, codes, text_eq, split_last, if◌then◌else◌, ltb,
  decimal, List, Text, ◌≢◌, ◌∙◌, sym, is_digit,
}
use evirion_engineering_memo.Prelude.Json.{get, get_field, Json}
use evirion_engineering_memo.Policy.{absolute_session_seconds}
use evirion_engineering_memo.Csrf.{
  issue_token, issued_body, issued_payload, payload_json, session, valid, binding_json,
  verify_token, payload_of, canonical_json, canonical_binding, template, to_text,
}
use evirion_engineering_memo.Cookies.Parse.{lookup}
use evirion_engineering_memo.Session.{active, read_session, stored_session, session_fields}
use evirion_engineering_memo.Routes.Dispatch.{handle}
use evirion_engineering_memo.Ceremony.{
  Ceremony, Verified, replay_request, proof_for, replay_pending_mutation, filled_entries,
  read_pending_from_request, read_challenge_from_request,
}
use evirion_engineering_memo.Ceremony.Carried.{as_form}
use evirion_engineering_memo.Examples.CookieRuns.{
  sample, generation, session_jar, session_jar-valid,
}
use evirion_engineering_memo.Examples.ProofRuns.{mac, environment, token, request-allowed, encode}
use evirion_engineering_memo.Routes.{raised}
use evirion_engineering_memo.Ceremony.Replays.{replay_request-origin, replay_request-passed}
use evirion_engineering_memo.Ceremony.Resumes.{
  IsRefused, IsReplay, replay_pending_mutation-handle, replay_pending_mutation-IsReplay,
}
use evirion_engineering_memo.Cookies.{session_cookie_base}
use evirion_engineering_memo.Ceremony.Complete.{calls_of, complete}
use evirion_engineering_memo.Ceremony.Laws.{IsStepUp, reply_calls, resume-calls, complete-IsStepUp}

abbrev pub verified : Verified
verified = record {
  access_token = codes "b";
  refresh_token = codes "r";
  session_id = codes "p";
  access_token_expires_at = 2000;
}

abbrev ceremony : Ceremony
ceremony = record {
  nonce = codes "n";
  generation = generation;
  encode_session = λ s. codes "s";
  host_of = λ origin. codes "c";
  resend = λ jar. jar;
  read_back = λ fields. some (as_form fields);
  parse_location = λ location. none;
  challenge_totp = λ access_token. some (codes "f");
  verify_totp = λ access_token factor code. some verified;
  complete = λ access_token action_class challenge. success (codes "DONE") (codes "q");
  issue = λ access_token action_class. failure unreachable;
}

held : read_session decode_ceremony session_jar 1010 ≡ active sample generation
unfolding stored_session session_fields get_field text_eq read_session
held = rw (session_jar-valid, read_session) refl

bound : session_binding_from decode_ceremony 1010 session_jar ≡ some (session (codes "p"))
unfolding session_binding_from
bound = rw held refl

valid-token :
    verify_token mac decode_ceremony (some token) (some token) (session (codes "p")) 1010
    ≡ valid (binding_json (session (codes "p")))
unfolding verify_token text_eq split_last payload_of payload_json get get_field canonical_json
    canonical_binding template to_text binding_json
valid-token = refl

route_request-passed :
    guard_mutation decode_ceremony environment 1010
      (session_binding_from decode_ceremony 1010)
      route_request
    ≡ passed route_form (binding_json (session (codes "p")))
unfolding guard_mutation text_eq lookup form_get session_csrf_cookie
route_request-passed = rw (request-allowed, bound, valid-token) refl

replay_request-origin_example :
    assert_mutation_origin
      (mutation_request environment (replay_request route_world ceremony session_jar [] token))
      (codes "https://c")
    ≡ (if ltb 0 1 then allowed (codes "https://c") else rejected untrusted_forwarding_header)
replay_request-origin_example =
    replay_request-origin route_world ceremony session_jar [] token refl (cc)

path-resolved :
    resolve_mutation_handler (codes "/api/settings/offboarding/request") ≡ some offboarding_request
unfolding resolve_mutation_handler switch handlers text_eq
path-resolved = refl

replay_pending_mutation-IsReplay_example :
    (IsRefused route_world route_request paused
      × (replay_pending_mutation route_world services ceremony route_request (pending_json paused)
          ≡ raised []))
    ⊎ IsReplay route_world services ceremony route_request paused
        (replay_pending_mutation route_world services ceremony route_request (pending_json paused))
replay_pending_mutation-IsReplay_example =
    replay_pending_mutation-IsReplay route_world services ceremony route_request paused

abbrev paused_fields : List (Text × Text)
paused_fields = paused.draft.fields

abbrev replayed_form : Form
replayed_form = as_form (set_field (codes "csrfToken") token paused_fields)

jar-resent :
    filled_entries
      (set_field session_csrf_cookie (proof_for route_world ceremony sample) session_jar)
    ≡ session_jar
unfolding filled_entries set_field session_csrf_cookie issue_token text_eq session_cookie_base
    decimal
jar-resent = refl

body-decoded :
    decode_ceremony
      (issued_body encode (codes "n") (session (codes "p")) 1010 absolute_session_seconds)
    ≡ some (
        payload_json
          (issued_payload (codes "n") (session (codes "p")) 1010 absolute_session_seconds))
unfolding text_eq
body-decoded = refl

held-resent :
    read_session decode_ceremony
      (filled_entries
        (set_field session_csrf_cookie (proof_for route_world ceremony sample) session_jar))
      1010
    ≡ active sample generation
held-resent = rw jar-resent held

replay_request-passed_example :
    guard_mutation decode_ceremony environment 1010 (session_binding_from decode_ceremony 1010) (
      replay_request route_world ceremony session_jar paused_fields
        (proof_for route_world ceremony sample))
    ≡ passed
        (as_form
          (set_field (codes "csrfToken") (proof_for route_world ceremony sample) paused_fields))
        (binding_json (session (codes "p")))
replay_request-passed_example =
    replay_request-passed route_world ceremony sample body-decoded (cc) refl
      (refl, (refl, (refl, tt))) session_jar paused_fields generation refl (cc) refl refl
      held-resent refl

replayed-passed :
    guard_mutation decode_ceremony environment 1010
      (session_binding_from decode_ceremony 1010)
      (replay_request route_world ceremony session_jar paused_fields token)
    ≡ passed replayed_form (binding_json (session (codes "p")))
unfolding issue_token
replayed-passed =
    replay_request-passed route_world ceremony sample body-decoded (cc) refl
      (refl, (refl, (refl, tt))) session_jar paused_fields generation refl (cc) refl refl
      held-resent refl

pending-read : read_pending_from_request route_world route_request ≡ found (pending_json paused)
unfolding read_pending_from_request read_pending_mutation decode_signed split_last text_eq get
    get_field lookup pending_mutation_cookie
pending-read = rw held refl

challenge-read : read_challenge_from_request route_world route_request ≡ found challenge_value
unfolding read_challenge_from_request decode_signed split_last text_eq lookup challenge_cookie
challenge-read = refl

abbrev replayed : Request
replayed = replay_request route_world ceremony session_jar paused_fields token

fields-read :
    membership_fields replayed_form
    ≡ some (codes "00000000-0000-4000-8000-00000000d001", replayed_form)
unfolding membership_fields form_get text_eq is_uuid fits uuid_places is_digit set_field
    collect_fields
fields-read = refl

begun :
    begin_membership_command route_world replayed
    ≡ ready
        (record { organization_id = organization; access_token = codes "a" })
        (codes "00000000-0000-4000-8000-00000000d001", replayed_form)
        route_context
unfolding begin_with issue_token
begun = rw (replayed-passed, fields-read, held-resent) refl

handled-called : reply_calls (handle route_world services offboarding_request replayed) ≢ []
unfolding Settings.request_offboarding guard_freshness is_reauthentication_fresh command
    path_template form_get text_eq is_uuid fits uuid_places is_digit set_field collect_fields trim
    trim_start trim_end
handled-called = rw begun (λ h. cc)

path-allowed :
    is_allowed_mutation_path paused.draft.gate (codes "/api/settings/offboarding/request") ≡ true
unfolding is_allowed_mutation_path mutation_paths_for_gate includes text_eq
path-allowed = refl

replay-called :
    reply_calls
      (replay_pending_mutation route_world services ceremony route_request (pending_json paused))
    ≢ []
unfolding issue_token
replay-called =
    rw
      (
        replay_pending_mutation-handle route_world services ceremony route_request paused
            offboarding_request sample generation path-resolved held,
        path-allowed,
      )
      handled-called

complete-called : calls_of (complete route_world services ceremony route_request) ≢ []
unfolding complete form_get text_eq is_digit get get_field
complete-called =
    rw (route_request-passed, pending-read, challenge-read, held)
      (λ h. replay-called (
        sym (
          resume-calls route_world services ceremony route_request _ (
            replay_pending_mutation route_world services ceremony route_request
              (pending_json paused)))
        ∙ h))

complete-IsStepUp_example :
    (pending : Json) × IsStepUp route_world ceremony route_request pending
    × (calls_of (complete route_world services ceremony route_request)
        ≡ reply_calls (replay_pending_mutation route_world services ceremony route_request pending))
complete-IsStepUp_example =
    complete-IsStepUp route_world services ceremony route_request complete-called
