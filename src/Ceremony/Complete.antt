-- ===== src/Ceremony/Complete.antt =====
-- src/app/api/session/reauthentication/complete: consume a challenge after a fresh second factor, then
-- replay the paused mutation. A check goes on with a value, leaves with a redirect, or throws; the calls
-- of the backend that a reply records are those of the mutation.
use evirion_engineering_memo.Prelude.{
  ℕ, ◌+◌, min, Bool, false, ◌&&◌, ◌||◌, List, [], ◌∷◌, ◌++◌, Option, none, some, Result, ok, err,
  Text, codes, text_eq, length, all, is_digit, ◌==◌, if◌then◌else◌,
}
use evirion_engineering_memo.Prelude.Json.{Json, null, get}
use evirion_engineering_memo.Policy.{absolute_session_seconds}
use evirion_engineering_memo.Cookies.{CookieInstruction, BudgetError}
use evirion_engineering_memo.Session.{
  StoredSession, ReadOutcome, active, anonymous, refused, read_session, write_session,
}
use evirion_engineering_memo.Guard.{
  Form, FormValue, string, Request, GuardResult, passed, stopped, threw, guard_mutation,
  session_binding_from, form_get,
}
use evirion_engineering_memo.ConsoleApi.{
  ConsoleFailure, error, unsupported, unreachable, ConsoleResult, success, failure,
}
use evirion_engineering_memo.Reauth.State.{
  Read, nothing, raised as read_raised, found, clear_reauthentication_cookies,
}
use evirion_engineering_memo.Commands.{World}
use evirion_engineering_memo.Adapters.{Call}
use evirion_engineering_memo.Routes.{Services, Reply, replied, raised}
use evirion_engineering_memo.Ceremony.{
  Ceremony, Verified, Leave, replay_pending_mutation, redirect_back_for_ceremony,
  safe_redirect_location, read_pending_from_request, read_challenge_from_request, failure_code,
  invalid_challenge, totp_rejected, text_member, proof_for, session_proof_cookie,
}

-- What the route has answered, with the calls that the replayed mutation made.
pub data Completed : Type 0 where
  finished : List Call → Text → List CookieInstruction → Completed
  crashed : List Call → Completed

abbrev pub calls_of : Completed → List Call
calls_of (finished calls location cookies) = calls
calls_of (crashed calls) = calls

pub data Step (A : Type 0) : Type 0 where
  go : A → Step A
  stop : Leave → Step A

abbrev pub leave : List Call → Leave → Completed
leave calls none = crashed calls
leave calls (some (location, cookies)) = finished calls location cookies

abbrev pub and_step : {A : Type 0} → Step A → (A → Completed) → Completed
and_step (go a) k = k a
and_step (stop l) k = leave [] l

abbrev pub sign_in : Leave
sign_in = some (codes "/auth/sign-in", [])

abbrev pub guarded : GuardResult → Step Form
guarded (passed form binding) = go form
guarded (stopped e) = stop sign_in
guarded threw = stop none

-- /^\d{6}$/
abbrev pub is_six_digits : Text → Bool
is_six_digits s = length s == 6 && all is_digit s

abbrev pub check_code : Leave → Option FormValue → Step Text
check_code refusal (some (string s)) = if is_six_digits s then go s else stop refusal
check_code refusal _ = stop refusal

-- Both are read before either is missed.
abbrev pub check_state : Leave → Read → Read → Step (Json × Json)
check_state refusal read_raised challenge = stop none
check_state refusal pending read_raised = stop none
check_state refusal (found pending) (found challenge) = go (pending, challenge)
check_state refusal nothing challenge = stop refusal
check_state refusal pending nothing = stop refusal

abbrev pub check_session : ReadOutcome → Step StoredSession
check_session (active s generation) = go s
check_session anonymous = stop sign_in
check_session (refused reason clear) = stop sign_in

abbrev pub is_same : Option Text → Text → Bool
is_same none id = false
is_same (some s) id = text_eq s id

-- The challenge is of this session; a member of `null` cannot be read.
abbrev pub check_owner : Leave → StoredSession → Json → Step Json
check_owner refusal s null = stop none
check_owner refusal s challenge =
    if is_same (text_member (get (codes "providerSessionId") challenge)) s.provider_session_id
    then go challenge
    else stop refusal

abbrev pub from_option : {A : Type 0} → Leave → Option A → Step A
from_option refusal none = stop refusal
from_option refusal (some a) = go a

-- CAPABILITY_REQUIRED and RESOURCE_NOT_FOUND say that the challenge is not good.
abbrev pub is_refused : ConsoleFailure → Bool
is_refused (error e status) =
    text_eq e.code (codes "CAPABILITY_REQUIRED") || text_eq e.code (codes "RESOURCE_NOT_FOUND")
is_refused (unsupported status) = false
is_refused unreachable = false

abbrev pub completion_code : ConsoleFailure → Text
completion_code e = if is_refused e then invalid_challenge else failure_code e

abbrev pub check_completion : (Text → Leave) → ConsoleResult Text → Step Text
check_completion back (success receipt request_id) = go receipt
check_completion back (failure e) = stop (back (completion_code e))

-- `a || b`
abbrev pub or_filled : Text → Text → Text
or_filled [] b = b
or_filled (x ∷ a) b = x ∷ a

-- The session behind the second factor, which keeps the end of its lifetime.
unfoldable pub upgraded : ℕ → StoredSession → Verified → StoredSession
upgraded now s verified = record {
  access_token = verified.access_token;
  refresh_token = verified.refresh_token;
  provider_session_id = or_filled verified.session_id s.provider_session_id;
  access_token_expires_at = verified.access_token_expires_at;
  absolute_expires_at = min s.absolute_expires_at (now + absolute_session_seconds);
}

module _ (w : World) (api : Services) (c : Ceremony) (r : Request) where
  abbrev pub back : Text → Leave
  back = redirect_back_for_ceremony w r

  abbrev pub write_upgraded :
      List Call → Text → StoredSession → Result BudgetError (List CookieInstruction) → Completed
  write_upgraded calls location s (err e) = crashed calls
  write_upgraded calls location s (ok cookies) =
      finished calls location
        (cookies ++ session_proof_cookie (proof_for w c s) ∷ clear_reauthentication_cookies)

  abbrev pub land : List Call → StoredSession → Option Text → Completed
  land calls s none = leave calls (back (codes "UNSUPPORTED_SERVER_RESPONSE"))
  land calls s (some location) =
      write_upgraded calls location s (write_session c.encode_session c.generation s w.now)

  abbrev pub resume : StoredSession → Reply → Completed
  resume s (raised calls) = leave calls (back (codes "DEPENDENCY_UNAVAILABLE"))
  resume s (replied calls response) = land calls s (safe_redirect_location w c response.location)

  -- The replay behind the second factor.
  abbrev pub replay_upgraded : Json → StoredSession → Verified → Text → Completed
  replay_upgraded pending s verified receipt =
      resume (upgraded w.now s verified) (replay_pending_mutation w api c r pending)

  abbrev pub consume : Json → StoredSession → Json → Verified → Completed
  consume pending s challenge verified =
      and_step
        (check_completion back (
          c.complete verified.access_token (get (codes "actionClass") pending)
            (get (codes "challengeId") challenge)))
        (replay_upgraded pending s verified)

  abbrev pub verify : Text → Json → StoredSession → Json → Text → Completed
  verify code pending s challenge factor =
      and_step (from_option (back totp_rejected) (c.verify_totp s.access_token factor code))
        (consume pending s challenge)

  abbrev pub challenge_factor : Text → Json → StoredSession → Json → Completed
  challenge_factor code pending s challenge =
      and_step (from_option (back invalid_challenge) (c.challenge_totp s.access_token))
        (verify code pending s challenge)

  abbrev pub prove : Text → Json × Json → StoredSession → Completed
  prove code state s =
      and_step (check_owner (back invalid_challenge) s state.1) (challenge_factor code state.0 s)

  abbrev pub read_holder : Text → Json × Json → Completed
  read_holder code state =
      and_step (check_session (read_session w.decode r.cookies w.now)) (prove code state)

  abbrev pub read_state : Text → Completed
  read_state code =
      and_step
        (check_state (back (codes "REQUEST_INVALID")) (read_pending_from_request w r)
          (read_challenge_from_request w r))
        (read_holder code)

  abbrev pub read_code : Form → Completed
  read_code form =
      and_step (check_code (back (codes "REQUEST_INVALID")) (form_get (codes "totp") form))
        read_state

  -- POST of complete
  unfoldable pub complete : Completed
  complete =
      and_step
        (guarded
          (guard_mutation w.decode w.environment w.now (session_binding_from w.decode w.now) r))
        read_code
