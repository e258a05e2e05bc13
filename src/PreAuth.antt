-- ===== src/PreAuth.antt =====
-- src/lib/auth/pre-auth-transaction.ts: the short-lived transaction that carries a sign-in from the
-- request of a code to the bootstrap. Times are seconds since the epoch; a thrown
-- PreAuthTransitionError is the `err` of a `Result`.
pub mod Laws
pub mod Traces
use evirion_engineering_memo.Prelude.{
  ℕ, ◌+◌, Bool, true, false, ◌&&◌, Option, none, some, List, [], ◌∷◌, Result, ok, err, ltb, leb,
  ◌==◌, if◌then◌else◌, Text,
}

pub data State : Type 0 where
  issued otp_request_started otp_requested otp_verify_started otp_verified : State
  bootstrap_pending consumed outcome_unknown verify_outcome_unknown : State
  revoked expired failed : State

pub data Event : Type 0 where
  request_otp otp_request_succeeded otp_request_response_lost : Event
  verify_otp otp_verify_succeeded otp_verify_response_lost : Event
  bootstrap_started bootstrap_committed revoke expire fail : Event

pub State-discrete : Discrete State
State-discrete = hlevel

pub record Transaction : Type 0 where
  pub transaction_id : Text
  pub state : State
  pub email_identity_hmac : Text
  pub generation : ℕ
  pub issued_at : ℕ
  pub expires_at : ℕ

pub record TransitionError : Type 0 where
  pub from : State
  pub event : Event

abbrev pub terminal_states : List State
terminal_states = consumed ∷ revoked ∷ expired ∷ failed ∷ verify_outcome_unknown ∷ []

-- `===` on two states
abbrev same_state : State → State → Bool
same_state s t = elim (State-discrete s t) [ yes _ ↦ true | no _ ↦ false ]

abbrev includes_state : List State → State → Bool
includes_state [] s = false
includes_state (t ∷ ts) s = if same_state t s then true else includes_state ts s

unfoldable pub is_terminal : State → Bool
unfolding State-discrete
is_terminal s = includes_state terminal_states s

-- The TRANSITIONS table; a key that is not there reads as undefined.
unfoldable pub next_state : State → Event → Option State
next_state issued request_otp = some otp_request_started
next_state issued revoke = some revoked
next_state issued expire = some expired
next_state issued fail = some failed
next_state otp_request_started otp_request_succeeded = some otp_requested
next_state otp_request_started otp_request_response_lost = some outcome_unknown
next_state otp_request_started revoke = some revoked
next_state otp_request_started expire = some expired
next_state otp_request_started fail = some failed
next_state otp_requested verify_otp = some otp_verify_started
next_state otp_requested revoke = some revoked
next_state otp_requested expire = some expired
next_state otp_requested fail = some failed
next_state otp_verify_started otp_verify_succeeded = some otp_verified
next_state otp_verify_started otp_verify_response_lost = some verify_outcome_unknown
next_state otp_verify_started revoke = some revoked
next_state otp_verify_started expire = some expired
next_state otp_verify_started fail = some failed
next_state otp_verified bootstrap_started = some bootstrap_pending
next_state otp_verified revoke = some revoked
next_state otp_verified expire = some expired
next_state otp_verified fail = some failed
next_state bootstrap_pending bootstrap_started = some bootstrap_pending
next_state bootstrap_pending bootstrap_committed = some consumed
next_state bootstrap_pending revoke = some revoked
next_state bootstrap_pending expire = some expired
next_state bootstrap_pending fail = some failed
next_state outcome_unknown verify_otp = some otp_verify_started
next_state outcome_unknown revoke = some revoked
next_state outcome_unknown expire = some expired
next_state outcome_unknown fail = some failed
next_state _ _ = none

abbrev is_expire : Event → Bool
is_expire expire = true
is_expire _ = false

abbrev refused : Transaction → Event → Result TransitionError Transaction
refused t e = err (record { from = t.state; event = e })

abbrev move_to : Transaction → Event → Option State → Result TransitionError Transaction
move_to t e none = refused t e
move_to t e (some s) = ok (record t { state = s })

unfoldable pub apply_event : Transaction → Event → ℕ → Result TransitionError Transaction
unfolding next_state
apply_event t e now =
    if leb t.expires_at now && (if is_expire e then false else true)
    then refused t e
    else move_to t e (next_state t.state e)

-- `now - lastRequestedAt < cooldownSeconds`, over integers, is `now < lastRequestedAt + cooldown`.
unfoldable pub resend_otp : Transaction → ℕ → ℕ → ℕ → Result TransitionError Transaction
unfolding is_terminal
resend_otp t now last_requested_at cooldown_seconds =
    if is_terminal t.state
    then refused t request_otp
    else if ltb now (last_requested_at + cooldown_seconds)
    then refused t request_otp
    else ok (record t { state = otp_request_started; generation = t.generation + 1 })

unfoldable pub can_reconcile_delivery : Transaction → ℕ → Bool
unfolding State-discrete
can_reconcile_delivery t verified_generation =
    same_state t.state outcome_unknown && t.generation == verified_generation
