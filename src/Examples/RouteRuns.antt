-- ===== src/Examples/RouteRuns.antt =====
-- Runs of the command routes, their adapters, and the ceremony that replays them.
use evirion_engineering_memo.Prelude.{
  ◌≡◌, refl, [], ◌∷◌, Option, none, some, Text, codes, text_eq, if◌then◌else◌,
}
use evirion_engineering_memo.Prelude.Json.{Json, text, object, no_fields, field}
use evirion_engineering_memo.Origin.{trim, trim_start, trim_end, is_space}
use evirion_engineering_memo.Policy.{absolute_session_seconds}
use evirion_engineering_memo.Csrf.{session, payload_json, issued_payload}
use evirion_engineering_memo.Guard.{Form, string, Request}
use evirion_engineering_memo.ConsoleApi.{success, failure, unreachable}
use evirion_engineering_memo.Reauth.{offboarding_request}
use evirion_engineering_memo.Reauth.State.{
  PendingMutation, pending_json, set_field, form_fields_from,
}
use evirion_engineering_memo.Commands.{World, Context}
use evirion_engineering_memo.Commands.Resources.{membership_pending_mutation}
use evirion_engineering_memo.Adapters.{bounded}
use evirion_engineering_memo.Routes.{Services}
use evirion_engineering_memo.Routes.Dispatch.{handle}
use evirion_engineering_memo.Routes.Replayable.{IsPausedFor, handle-IsPausedFor}
use evirion_engineering_memo.Routes.Paused.{Replies}
use evirion_engineering_memo.Routes.Memory
use evirion_engineering_memo.Routes.Policy.{get_profiles}
use evirion_engineering_memo.Ceremony.Carried.{as_form, replayed-profiles}
use evirion_engineering_memo.Examples.ProofRuns.{decode, request, form, token}
use evirion_engineering_memo.Examples.StepUpRuns.{world}

abbrev pub route_form : Form
route_form =
    (codes "confirmationAccepted", string (codes "true"))
    ∷ (codes "totp", string (codes "123456"))
    ∷ form

abbrev pub route_request : Request
route_request = record request { form = some route_form }

abbrev pub organization : Text
organization = codes "00000000-0000-4000-8000-00000000d002"

abbrev pub route_context : Context
route_context = record { organization_id = organization; session_id = none; fresh_until = none }

abbrev pub paused : PendingMutation
paused = record {
  draft = membership_pending_mutation route_form (codes "/api/settings/offboarding/request");
  provider_session_id = codes "p";
  expires_at = 601000;
}

abbrev pub challenge_value : Json
challenge_value = object (
    field (codes "challengeId") (text (codes "c"))
      (field (codes "providerSessionId") (text (codes "p")) no_fields))

abbrev pub decode_ceremony : Text → Option Json
decode_ceremony t =
    if text_eq t (codes "pend")
    then some (pending_json paused)
    else if text_eq t (codes "chal")
    then some challenge_value
    else if text_eq t (codes "body")
    then some (
        payload_json
          (issued_payload (codes "n") (session (codes "p")) 1010 absolute_session_seconds))
    else decode t

abbrev pub route_world : World
route_world = record world {
  decode = decode_ceremony;
  fetch_context = λ access_token. success route_context (codes "q");
}

abbrev pub services : Services
services = record {
  send = λ call. success (codes "OK") (codes "q");
  profiles = λ call. failure unreachable;
  amount = λ raw. none;
  iso = λ raw. none;
  months_ago = λ months. [];
}

handle-IsPausedFor_example :
    Replies
      (IsPausedFor route_world offboarding_request route_request)
      (handle route_world services offboarding_request route_request)
handle-IsPausedFor_example =
    handle-IsPausedFor route_world services offboarding_request route_request

abbrev two_profiles : Form
two_profiles =
    (codes "allowedModelProfiles", string (codes "a"))
    ∷ (codes "allowedModelProfiles", string (codes "b"))
    ∷ []

-- The form names both.
two_profiles-named :
    get_profiles (codes "allowedModelProfiles") two_profiles ≡ codes "a" ∷ codes "b" ∷ []
unfolding get_profiles text_eq trim trim_start trim_end is_space
two_profiles-named = refl

replayed-profiles_example :
    get_profiles
      (codes "allowedModelProfiles")
      (as_form (set_field (codes "csrfToken") token (form_fields_from two_profiles)))
    ≡ codes "b" ∷ []
unfolding text_eq trim trim_start trim_end is_space
replayed-profiles_example = replayed-profiles (codes "allowedModelProfiles") token two_profiles refl

bounded-cut : bounded 2 (some (codes " abc ")) ≡ some (codes "ab")
unfolding bounded trim trim_start trim_end is_space
bounded-cut = refl
