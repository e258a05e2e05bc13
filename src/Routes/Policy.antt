-- ===== src/Routes/Policy.antt =====
-- src/app/api/repositories/policy: the consent to paid extraction and the catalogue it is read against.
use evirion_engineering_memo.Prelude.{
  ℕ, Bool, true, false, ◌&&◌, ◌||◌, not, List, [], ◌∷◌, ◌++◌, Option, none, some, Text, codes,
  text_eq, includes, all, length, leb, take, ◌==◌, is_digit, if◌then◌else◌,
}
use evirion_engineering_memo.Origin.{trim}
use evirion_engineering_memo.ConsoleApi.{ConsoleResult, success, failure}
use evirion_engineering_memo.Guard.{Form, Request, FormValue, string, file, form_get}
use evirion_engineering_memo.Commands.{World, Scope, Context, guard_freshness, form_text, text_of}
use evirion_engineering_memo.Commands.Resources.{
  RepositoryFields, begin_repository_command, repository_pending_mutation,
}
use evirion_engineering_memo.Adapters.{Call}
use evirion_engineering_memo.Adapters.Repositories.{
  Consent, update_repository_processing_policy, fetch_organization_model_profiles,
}
use evirion_engineering_memo.Routes.{
  Profile, Services, Reply, replied, raised, submit_call, unless_stale, run_outcome,
  read_approved_budget,
}
use evirion_engineering_memo.Routes.Repositories.{refuse_repository_command, finish_repository}

-- One more profile, unless it is blank.
abbrev pub with_profile : Text → List Text → List Text
with_profile [] others = others
with_profile (c ∷ s) others = (c ∷ s) ∷ others

-- `form.getAll(name)`, as texts that are trimmed and not blank
unfoldable pub get_profiles : Text → Form → List Text
get_profiles name [] = []
get_profiles name ((n, v) ∷ rest) =
    let others = get_profiles name rest in
    if text_eq n name then with_profile (trim (text_of (some v))) others else others

-- `new Set(profiles).size === profiles.length`
unfoldable pub is_distinct : List Text → Bool
is_distinct [] = true
is_distinct (s ∷ ss) = not (includes ss s) && is_distinct ss

abbrev pub is_lower : ℕ → Bool
is_lower c = leb b'a' c && leb c b'z'

abbrev pub is_profile_unit : ℕ → Bool
is_profile_unit c = is_lower c || is_digit c || c == b'_' || c == b'.' || c == b'-'

-- MODEL_PROFILE.test: /^[a-z][a-z0-9_.-]{0,63}$/
unfoldable pub is_model_profile : Text → Bool
is_model_profile [] = false
is_model_profile (c ∷ s) = is_lower c && (leb (length s) 63 && all is_profile_unit s)

-- What the consent schema and the catalogue ask of the profiles.
abbrev pub are_profiles : List Text → List Text → Bool
are_profiles offered profiles =
    not (length profiles == 0)
    && (leb (length profiles) 16
        && (is_distinct profiles
            && (all is_model_profile profiles && all (includes offered) profiles)))

-- `Number(form.get(name))`, where it is an integer and not negative; an absent one is zero
abbrev pub ceiling_of : World → Option FormValue → Option ℕ
ceiling_of w none = some 0
ceiling_of w (some (string s)) = w.integer_of s
ceiling_of w (some file) = none

abbrev pub call_ceiling : Option ℕ → Option ℕ
call_ceiling none = none
call_ceiling (some n) = if leb 1 n && leb n 1000000000 then some n else none

abbrev pub instant_of : Option Text → Option Text
instant_of none = none
instant_of (some iso) = some (take 19 iso ++ codes "Z")

abbrev pub later_than : ℕ → Option ℕ → Option Text → Option Text
later_than now none iso = none
later_than now (some at) iso = if leb at now then none else instant_of iso

-- expiry
unfoldable pub expiry : World → Services → Text → Option Text
expiry w api raw = later_than w.now_ms (w.parse_date raw) (api.iso raw)

abbrev pub retry_policies : List Text
retry_policies = codes "NO_RETRY" ∷ codes "BOUNDED_TRANSPORT_RETRY" ∷ []

abbrev pub consent_of : List Text → Text → Option ℕ → Option Text → Option Text → Option Consent
consent_of profiles retry (some ceiling) (some budget) (some expires_at) =
    if includes retry_policies retry
    then some (record {
      allowed_model_profiles = profiles;
      call_ceiling = ceiling;
      budget_ceiling_usd = budget;
      retry_policy = retry;
      expires_at = expires_at;
    })
    else none
consent_of profiles retry _ _ _ = none

-- readConsentFields
unfoldable pub read_consent_fields : World → Services → Form → List Text → Option Consent
read_consent_fields w api form offered =
    if are_profiles offered (get_profiles (codes "allowedModelProfiles") form)
    then consent_of (get_profiles (codes "allowedModelProfiles") form)
        (form_text (codes "retryPolicy") form)
        (call_ceiling (ceiling_of w (form_get (codes "callCeiling") form)))
        (read_approved_budget api (form_text (codes "budgetCeilingUsd") form))
        (expiry w api (form_text (codes "expiresAt") form))
    else none

-- The canonical identifiers that the organization may name.
unfoldable pub offered_in : List Profile → List Text
offered_in [] = []
offered_in (p ∷ ps) =
    let rest = offered_in ps in
    if text_eq p.availability (codes "OFFERED") then p.canonical_identifier ∷ rest else rest

-- MODES
abbrev pub policy_modes : List Text
policy_modes = codes "OFF" ∷ codes "SOURCE_ONLY" ∷ codes "AUTO_EXTRACT" ∷ []

abbrev pub policy_path : Text
policy_path = codes "/api/repositories/policy"

-- A reply behind one more call.
abbrev pub behind : Call → Reply → Reply
behind call (replied calls response) = replied (call ∷ calls) response
behind call (raised calls) = raised (call ∷ calls)

module _ (w : World) (api : Services) (scope : Scope) (f : RepositoryFields)
    (context : Context) where
  abbrev pub submit_policy : ℕ → Text → Option Consent → Reply
  submit_policy version mode consent = submit_call api (finish_repository w policy_path f context) (
      update_repository_processing_policy scope f.fields.id f.fields.idempotency_key version mode
        consent)

  abbrev pub submit_consent : ℕ → Option Consent → Reply
  submit_consent version none = replied [] (refuse_repository_command w f.fields.id)
  submit_consent version (some consent) =
      submit_policy version (codes "AUTO_EXTRACT") (some consent)

  abbrev pub consult : ℕ → ConsoleResult (List Profile) → Reply
  consult version (success profiles request_id) =
      submit_consent version (read_consent_fields w api f.fields.form (offered_in profiles))
  consult version (failure e) = replied [] (finish_repository w policy_path f context (failure e))

  abbrev pub consult_catalogue : ℕ → Option Call → Reply
  consult_catalogue version none = raised []
  consult_catalogue version (some call) = behind call (consult version (api.profiles call))

  abbrev pub policy_mode : Text → ℕ → Reply
  policy_mode mode version =
      if not (includes policy_modes mode)
      then replied [] (refuse_repository_command w f.fields.id)
      else if text_eq mode (codes "AUTO_EXTRACT")
      then consult_catalogue version (fetch_organization_model_profiles scope)
      else submit_policy version mode none

  abbrev pub policy_version : Option ℕ → Reply
  policy_version none = replied [] (refuse_repository_command w f.fields.id)
  policy_version (some version) = policy_mode (form_text (codes "mode") f.fields.form) version

abbrev pub policy_act : World → Services → Scope → RepositoryFields → Context → Reply
policy_act w api scope f context =
    unless_stale (guard_freshness w context (repository_pending_mutation f.fields policy_path))
      (policy_version w api scope f context f.expected_version)

-- POST of repositories/policy
unfoldable pub policy : World → Services → Request → Reply
policy w api r = run_outcome (policy_act w api) (begin_repository_command w r)
