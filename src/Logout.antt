-- ===== src/Logout.antt =====
-- src/app/api/auth/logout with src/lib/auth/session-revocation.ts and the clearing of
-- src/lib/auth/pre-auth-cookies.ts.
pub mod Removals
pub mod Laws
pub mod Revoke
pub mod Revocations
use evirion_engineering_memo.Prelude.{
  Bool, true, false, List, [], ◌∷◌, ◌++◌, Option, none, some, Text, codes, text_eq, if◌then◌else◌,
}
use evirion_engineering_memo.Cookies.{CookieInstruction, cookie_attributes}
use evirion_engineering_memo.Session.{
  ReadOutcome, active, anonymous, refused, read_session, clear_session,
}
use evirion_engineering_memo.Guard.{
  Form, FormValue, string, file, Request, GuardResult, passed, stopped, threw, guard_mutation,
  session_binding_from, form_get, pre_auth_csrf_cookie,
}
use evirion_engineering_memo.Reauth.State.{clear_reauthentication_cookies}
use evirion_engineering_memo.Commands.{World}
use evirion_engineering_memo.Proxy.{pre_auth_transaction_cookie}

-- ProviderEffect, with the scope of the sign-out
pub data ProviderEffect : Type 0 where
  local_scope others_scope global_scope not_applicable : ProviderEffect

-- ProviderEffectState
pub data EffectState : Type 0 where
  pending started succeeded failed_retryable failed_final outcome_unknown : EffectState
  effect_not_applicable : EffectState

-- isTerminalProviderEffect
abbrev pub is_terminal_provider_effect : EffectState → Bool
is_terminal_provider_effect succeeded = true
is_terminal_provider_effect failed_final = true
is_terminal_provider_effect effect_not_applicable = true
is_terminal_provider_effect _ = false

-- mayRetryProviderEffect
abbrev pub may_retry_provider_effect : EffectState → Bool
may_retry_provider_effect failed_retryable = true
may_retry_provider_effect _ = false

-- requiresObservationBeforeRetry
abbrev pub requires_observation_before_retry : EffectState → Bool
requires_observation_before_retry outcome_unknown = true
requires_observation_before_retry _ = false

-- providerEffectFor; `none` throws.
unfoldable pub provider_effect_for : Text → Option ProviderEffect
provider_effect_for selection =
    if text_eq selection (codes "current")
    then some local_scope
    else if text_eq selection (codes "others")
    then some others_scope
    else if text_eq selection (codes "all")
    then some global_scope
    else if text_eq selection (codes "selected")
    then some not_applicable
    else none

-- preAuthCookieNames
unfoldable pub pre_auth_cookie_names : List Text
pre_auth_cookie_names =
    codes "__Host-console-pre-auth-addr"
    ∷ pre_auth_csrf_cookie
    ∷ codes "__Host-console-pre-auth-eid"
    ∷ codes "__Host-console-pre-auth-inv"
    ∷ pre_auth_transaction_cookie
    ∷ []

abbrev pub cleared_all : List Text → List CookieInstruction
cleared_all [] = []
cleared_all (name ∷ names) =
    record { name = name; value = []; attributes = cookie_attributes; max_age = 0 }
    ∷ cleared_all names

-- clearPreAuthCookies
abbrev pub clear_pre_auth_cookies : List CookieInstruction
clear_pre_auth_cookies = cleared_all pre_auth_cookie_names

-- `effect.kind`
abbrev pub effect_kind : ProviderEffect → Text
effect_kind not_applicable = codes "not-applicable"
effect_kind _ = codes "scope"

-- A redirect to the sign-in with its cookies and its header `x-console-provider-effect`, or an exception.
pub data LoggedOut : Type 0 where
  logged_out : List CookieInstruction → Option Text → LoggedOut
  logout_threw : LoggedOut

-- Every cookie that the route clears.
abbrev pub cleared_cookies : List CookieInstruction
cleared_cookies = clear_session ++ (clear_pre_auth_cookies ++ clear_reauthentication_cookies)

-- The selection, which a form may leave out; a file is no selection.
abbrev pub selected_effect : Option FormValue → Option ProviderEffect
selected_effect none = provider_effect_for (codes "current")
selected_effect (some (string s)) = provider_effect_for s
selected_effect (some file) = none

abbrev pub effect_result : Option ProviderEffect → LoggedOut
effect_result none = logout_threw
effect_result (some effect) = logged_out cleared_cookies (some (effect_kind effect))

abbrev pub logout_session : Form → ReadOutcome → LoggedOut
logout_session form (active s generation) =
    effect_result (selected_effect (form_get (codes "selection") form))
logout_session form anonymous = logged_out cleared_cookies none
logout_session form (refused reason clear) = logged_out cleared_cookies none

abbrev pub logout_guarded : World → Request → GuardResult → LoggedOut
logout_guarded w r threw = logout_threw
logout_guarded w r (stopped e) = logged_out cleared_cookies none
logout_guarded w r (passed form binding) =
    logout_session form (read_session w.decode r.cookies w.now)

-- POST of logout
unfoldable pub logout : World → Request → LoggedOut
logout w r =
    logout_guarded w r
      (guard_mutation w.decode w.environment w.now (session_binding_from w.decode w.now) r)
