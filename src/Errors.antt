-- ===== src/Errors.antt =====
-- src/lib/errors/console-errors.ts: the treatment of a published failure. A code is its text; names that
-- every JavaScript object inherits, which the generated check refuses as codes, read as undefined here.
pub mod Laws
use evirion_engineering_memo.Prelude.{
  ℕ, Bool, true, false, List, [], ◌∷◌, Option, none, some, Text, codes,
}
use evirion_engineering_memo.ConsoleApi.{ConsoleError}
use evirion_engineering_memo.Reauth.{switch}

-- ERROR_TREATMENTS
pub data ErrorTreatment : Type 0 where
  sign_in_required reauthentication_required switch_organization not_permitted : ErrorTreatment
  reload_and_resubmit state_final waiting_on_evirion unknown_outcome : ErrorTreatment
  retry_bounded field_level non_retryable : ErrorTreatment

pub record MappedError : Type 0 where
  pub code : Text
  pub treatment : ErrorTreatment
  pub retryable : Bool
  pub request_id : Option Text
  pub current_version : Option ℕ
  pub current_sequence : Option ℕ

-- TREATMENTS
unfoldable pub treatments : List (Text × ErrorTreatment)
treatments =
    (codes "AUTHENTICATION_REQUIRED", sign_in_required)
    ∷ (codes "REAUTHENTICATION_REQUIRED", reauthentication_required)
    ∷ (codes "ORGANIZATION_MEMBERSHIP_REQUIRED", switch_organization)
    ∷ (codes "CAPABILITY_REQUIRED", not_permitted)
    ∷ (codes "RESOURCE_NOT_FOUND", not_permitted)
    ∷ (codes "VERSION_CONFLICT", reload_and_resubmit)
    ∷ (codes "REVIEW_VERSION_CONFLICT", reload_and_resubmit)
    ∷ (codes "LIFECYCLE_VERSION_CONFLICT", reload_and_resubmit)
    ∷ (codes "ENTITLEMENT_GENERATION_STALE", reload_and_resubmit)
    ∷ (codes "REPOSITORY_ACCESS_CHANGED", reload_and_resubmit)
    ∷ (codes "INVITATION_STATE_CONFLICT", reload_and_resubmit)
    ∷ (codes "ORGANIZATION_CONTROL_CONFLICT", reload_and_resubmit)
    ∷ (codes "REPOSITORY_NOT_ENTITLED", state_final)
    ∷ (codes "REPOSITORY_LIMIT_REACHED", state_final)
    ∷ (codes "REPOSITORY_REPLACEMENT_REQUIRES_OPERATOR", state_final)
    ∷ (codes "ORGANIZATION_LIMIT_NOT_PROVISIONED", state_final)
    ∷ (codes "BACKFILL_NOT_APPROVABLE", state_final)
    ∷ (codes "KNOWLEDGE_ACTION_NOT_ALLOWED", state_final)
    ∷ (codes "SUPERSESSION_INVALID", state_final)
    ∷ (codes "SUPERSESSION_TRAVERSAL_LIMIT", state_final)
    ∷ (codes "GITHUB_SYNC_INCOMPLETE", state_final)
    ∷ (codes "REPOSITORY_IMPORT_JOB_NOT_RETRYABLE", state_final)
    ∷ (codes "REPOSITORY_IMPORT_NOT_CANCELLABLE", state_final)
    ∷ (codes "REPOSITORY_IMPORT_NOT_RESUMABLE", state_final)
    ∷ (codes "REPOSITORY_IMPORT_NOT_PAUSABLE", state_final)
    ∷ (codes "REPOSITORY_IMPORT_NOT_APPROVABLE", state_final)
    ∷ (codes "REPOSITORY_IMPORT_ALREADY_ACTIVE", state_final)
    ∷ (codes "IDEMPOTENCY_KEY_REUSED", state_final)
    ∷ (codes "REPOSITORY_IMPORT_NOT_FOUND", not_permitted)
    ∷ (codes "REPOSITORY_IMPORT_FILTERS_INVALID", field_level)
    ∷ (codes "MODEL_PROFILE_NOT_OFFERED", field_level)
    ∷ (codes "NEW_MODEL_CALL_NOT_AUTHORIZED", waiting_on_evirion)
    ∷ (codes "PAID_OPERATION_NOT_AUTHORIZED", waiting_on_evirion)
    ∷ (codes "PROVIDER_OUTCOME_UNKNOWN", unknown_outcome)
    ∷ (codes "UNSUPPORTED_SERVER_RESPONSE", unknown_outcome)
    ∷ (codes "RATE_LIMITED", retry_bounded)
    ∷ (codes "DEPENDENCY_UNAVAILABLE", retry_bounded)
    ∷ (codes "REQUEST_INVALID", field_level)
    ∷ (codes "REQUEST_TOO_LARGE", field_level)
    ∷ (codes "INTERNAL_ERROR", non_retryable)
    ∷ []

-- treatmentForCode
unfoldable pub treatment_for_code : Text → Option ErrorTreatment
treatment_for_code code = switch treatments code

-- UNKNOWN_ERROR
unfoldable pub unknown_error : MappedError
unknown_error = record {
  code = codes "UNSUPPORTED_SERVER_RESPONSE";
  treatment = unknown_outcome;
  retryable = false;
  request_id = none;
  current_version = none;
  current_sequence = none;
}

abbrev pub mapped : ConsoleError → Option ErrorTreatment → MappedError
mapped e none = unknown_error
mapped e (some treatment) = record {
  code = e.code;
  treatment = treatment;
  retryable = e.retryable;
  request_id = some e.request_id;
  current_version = e.current_version;
  current_sequence = e.current_sequence;
}

-- mapConsoleError. The table is looked up by its own keys; a name of the object's prototype is no code
-- that the contract admits.
unfoldable pub map_console_error : ConsoleError → MappedError
map_console_error e = mapped e (treatment_for_code e.code)

-- describeTreatment
unfoldable pub describe_treatment : ErrorTreatment → Text
describe_treatment sign_in_required = codes "Sign in to continue."
describe_treatment reauthentication_required = codes "Confirm your identity to continue."
describe_treatment switch_organization =
    codes "This needs an organization membership your account does not have."
describe_treatment not_permitted = codes "This is not available for your account."
describe_treatment reload_and_resubmit =
    codes "This changed while you were working. Reload and try again."
describe_treatment state_final = codes "This action is not available in the current state."
describe_treatment waiting_on_evirion =
    codes "Evirion authorization is pending. There is nothing to do here."
describe_treatment unknown_outcome = codes "The outcome is not known yet. Refresh to check again."
describe_treatment retry_bounded = codes "The service is busy. Try again shortly."
describe_treatment field_level = codes "Check the highlighted fields and try again."
describe_treatment non_retryable = codes "Something went wrong and nothing was changed."
