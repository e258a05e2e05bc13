-- ===== src/PreAuth/Laws.antt =====
-- Single steps of the pre-auth transaction of src/lib/auth/pre-auth-transaction.ts.
use evirion_engineering_memo.Prelude.{
  not, ◌&&◌, leb, suc, if◌then◌else◌, ℕ, ◌+◌, ◌≤◌, ◌≡◌, refl, ◌↔◌, true, none, some, ok, err, arith,
}
use evirion_engineering_memo.PreAuth.{
  is_expire, State, otp_request_started, consumed, verify_outcome_unknown, revoked, expired, failed,
  Event, request_otp, revoke, Transaction, is_terminal, next_state, apply_event, resend_otp,
}

-- The list of terminal states and the transition table agree: a state is listed as terminal exactly
-- when no event at all has a transition from it.
is_terminal_iff : (s : State) → (is_terminal s ≡ true) ↔ ((e : Event) → next_state s e ≡ none)
unfolding is_terminal next_state
is_terminal_iff consumed = (λ h e. refl, λ h. refl)
is_terminal_iff verify_outcome_unknown = (λ h e. refl, λ h. refl)
is_terminal_iff revoked = (λ h e. refl, λ h. refl)
is_terminal_iff expired = (λ h e. refl, λ h. refl)
is_terminal_iff failed = (λ h e. refl, λ h. refl)
is_terminal_iff s = (λ h. cc, λ h. cc (h revoke))

-- An event changes the state of the transaction and none of its other fields.
pub apply_event_keeps :
    (t : Transaction) (e : Event) (now : ℕ) {u : Transaction}
    → apply_event t e now ≡ ok u
    → (next_state t.state e ≡ some u.state) × (u ≡ record t { state = u.state })
unfolding apply_event next_state
apply_event_keeps t e now h = ground arith

-- At or after its expiry a transaction that is not terminal accepts EXPIRE, which moves it to
-- EXPIRED and changes nothing else; every other event, and every event in a terminal state, throws
-- with the state and the event.
pub apply_event_expired :
    (t : Transaction) (e : Event) (now : ℕ)
    → t.expires_at ≤ now
    → apply_event t e now ≡ (
        if is_expire e && not (is_terminal t.state)
        then ok (record t { state = expired })
        else err (record { from = t.state; event = e }))
unfolding apply_event is_terminal
apply_event_expired t e now h = ground arith

-- A resend is refused in a terminal state and inside the cooldown, and only then; when it goes
-- through it asks for a code again under the next generation and keeps every other field.
pub resend_otp_lem :
    (t : Transaction) (now last cooldown : ℕ)
    → resend_otp t now last cooldown ≡ (
        if not (is_terminal t.state) && leb (last + cooldown) now
        then ok (record t { state = otp_request_started; generation = suc t.generation })
        else err (record { from = t.state; event = request_otp }))
unfolding resend_otp
resend_otp_lem t now last cooldown = ground arith
