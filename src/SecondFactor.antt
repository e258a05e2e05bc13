-- ===== src/SecondFactor.antt =====
-- src/app/api/auth/mfa/challenge: the second factor of a sign-in. The provider's two calls are those of
-- the step-up ceremony.
pub mod Laws
use evirion_engineering_memo.Prelude.{
  List, Option, none, some, Result, ok, err, Text, codes, if◌then◌else◌,
}
use evirion_engineering_memo.Cookies.{CookieInstruction, BudgetError}
use evirion_engineering_memo.Session.{
  StoredSession, ReadOutcome, active, anonymous, refused, read_session, write_session,
}
use evirion_engineering_memo.Guard.{
  FormValue, string, file, Request, GuardResult, passed, stopped, threw, guard_mutation,
  session_binding_from, form_get,
}
use evirion_engineering_memo.Commands.{World}
use evirion_engineering_memo.Ceremony.{Ceremony, Verified}
use evirion_engineering_memo.Ceremony.Complete.{is_six_digits, upgraded}

-- Where the reader is sent: to /onboarding with the session's cookies, back with the reason, or to the
-- sign-in; or an exception. The first and the last name the access token whose session the backend has
-- been asked to activate.
pub data Factored : Type 0 where
  onboarded : Text → List CookieInstruction → Factored
  code_refused : Factored
  to_sign_in : Factored
  factor_threw : Option Text → Factored

abbrev pub activated : Factored → Option Text
activated (onboarded access_token cookies) = some access_token
activated code_refused = none
activated to_sign_in = none
activated (factor_threw access_token) = access_token

abbrev pub write_factor : Verified → Result BudgetError (List CookieInstruction) → Factored
write_factor verified (ok cookies) = onboarded verified.access_token cookies
write_factor verified (err e) = factor_threw (some verified.access_token)

module _ (w : World) (c : Ceremony) (r : Request) where
  -- The activation's answer is not looked at.
  abbrev pub verified_factor : StoredSession → Option Verified → Factored
  verified_factor s none = code_refused
  verified_factor s (some verified) =
      write_factor verified
        (write_session c.encode_session c.generation (upgraded w.now s verified) w.now)

  abbrev pub challenged_factor : Text → StoredSession → Option Text → Factored
  challenged_factor code s none = code_refused
  challenged_factor code s (some factor) =
      verified_factor s (c.verify_totp s.access_token factor code)

  abbrev pub factor_session : Text → ReadOutcome → Factored
  factor_session code (active s generation) =
      challenged_factor code s (c.challenge_totp s.access_token)
  factor_session code anonymous = to_sign_in
  factor_session code (refused reason clear) = to_sign_in

  abbrev pub factor_code : Option FormValue → Factored
  factor_code none = code_refused
  factor_code (some file) = code_refused
  factor_code (some (string code)) =
      if is_six_digits code
      then factor_session code (read_session w.decode r.cookies w.now)
      else code_refused

  abbrev pub factor_guarded : GuardResult → Factored
  factor_guarded (passed form binding) = factor_code (form_get (codes "totp") form)
  factor_guarded (stopped e) = to_sign_in
  factor_guarded threw = factor_threw none

  -- POST of mfa/challenge
  unfoldable pub second_factor : Factored
  second_factor =
      factor_guarded
        (guard_mutation w.decode w.environment w.now (session_binding_from w.decode w.now) r)
