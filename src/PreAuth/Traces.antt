-- ===== src/PreAuth/Traces.antt =====
-- Whole lives of a pre-auth transaction: events and resends in any order, until the first that throws.
use evirion_engineering_memo.Prelude.{
  inl, inr, ◌↔◌, ℕ, zero, suc, ◌+◌, ◌≤◌, ◌≡◌, refl, true, List, [], ◌∷◌, Result, ok, err, arith,
  Result-cases,
}
use evirion_engineering_memo.PreAuth.{
  State-discrete, is_terminal, State, issued, otp_verify_started, otp_verified, bootstrap_pending,
  consumed, outcome_unknown, Event, request_otp, verify_otp, otp_verify_succeeded,
  bootstrap_started, bootstrap_committed, Transaction, TransitionError, apply_event, resend_otp,
  can_reconcile_delivery,
}
use evirion_engineering_memo.PreAuth.Laws.{apply_event_keeps}

-- A call of applyPreAuthEvent at a time, or of resendPreAuthOtp.
pub data Op : Type 0 where
  event : Event → ℕ → Op
  resend : ℕ → ℕ → ℕ → Op

unfoldable pub step : Op → Transaction → Result TransitionError Transaction
step (event e now) t = apply_event t e now
step (resend now last cooldown) t = resend_otp t now last cooldown

unfoldable pub run : List Op → Transaction → Result TransitionError Transaction
unfolding step
run [] t = ok t
run (o ∷ os) t = elim (step o t) [ ok u ↦ run os u | err x ↦ err x ]

abbrev is_resend : Op → ℕ
is_resend (event _ _) = 0
is_resend (resend _ _ _) = 1

-- How many resends a run holds.
abbrev pub resends : List Op → ℕ
resends [] = 0
resends (o ∷ os) = is_resend o + resends os

run-cons :
    (o : Op) (os : List Op) (t : Transaction) {v : Transaction}
    → run (o ∷ os) t ≡ ok v
    → (u : Transaction) × (step o t ≡ ok u) × (run os u ≡ ok v)
unfolding run
run-cons o os t h = elim (Result-cases (step o t)) [
  | inl (u, e) ↦ (u, e, ground arith)
  | inr (x, e) ↦ ground arith
]

step_keeps :
    (o : Op) (t : Transaction) {u : Transaction}
    → step o t ≡ ok u
    → u ≡ record t { state = u.state; generation = t.generation + is_resend o }
unfolding step
step_keeps (event e now) t h = ground (arith, apply_event_keeps t e now h)
step_keeps (resend now last cooldown) t h = unfold resend_otp in ground arith

-- A transaction that has come through any run has kept its id, its email identity and its times,
-- and its generation has grown by the number of resends.
pub run_keeps :
    (os : List Op) (t : Transaction) {u : Transaction}
    → run os t ≡ ok u
    → u ≡ record t { state = u.state; generation = t.generation + resends os }
unfolding run
run_keeps [] t h = ground arith
run_keeps (o ∷ os) t h =
    let (v, s, r) = run-cons o os t h in ground (arith, step_keeps o t s, run_keeps os v r)

-- After a run that comes through, a code of the generation at its start may be reconciled exactly
-- if the send outcome is unknown and the run holds no resend.
can_reconcile_delivery-run :
    (os : List Op) (t : Transaction) {u : Transaction}
    → run os t ≡ ok u
    → (can_reconcile_delivery u t.generation ≡ true)
      ↔ ((u.state ≡ outcome_unknown) × (resends os ≡ 0))
unfolding can_reconcile_delivery
can_reconcile_delivery-run os t {u} h = elim (State-discrete u.state outcome_unknown) [
  | yes p ↦ ground (arith, run_keeps os t h)
  | no p ↦ ground (arith, run_keeps os t h)
]

-- The four milestones of a sign-in, in order.
abbrev advance : ℕ → Op → ℕ
advance zero (event verify_otp _) = 1
advance (suc zero) (event otp_verify_succeeded _) = 2
advance (suc (suc zero)) (event bootstrap_started _) = 3
advance (suc (suc (suc zero))) (event bootstrap_committed _) = 4
advance k _ = k

-- How many of VERIFY_OTP, OTP_VERIFY_SUCCEEDED, BOOTSTRAP_STARTED, BOOTSTRAP_COMMITTED a run has
-- passed, in this order, from `k` passed before it.
abbrev pub milestones : ℕ → List Op → ℕ
milestones k [] = k
milestones k (o ∷ os) = milestones (advance k o) os

abbrev stage : State → ℕ
stage otp_verify_started = 1
stage otp_verified = 2
stage bootstrap_pending = 3
stage consumed = 4
stage _ = 0

step-stage :
    (k : ℕ) (o : Op) (t : Transaction) {u : Transaction}
    → step o t ≡ ok u
    → k ≤ 4
    → stage t.state ≤ k
    → (stage u.state ≤ advance k o) × (advance k o ≤ 4)
unfolding step apply_event resend_otp
step-stage zero o t h b g = ground arith
step-stage (suc zero) o t h b g = ground arith
step-stage (suc (suc zero)) o t h b g = ground arith
step-stage (suc (suc (suc zero))) o t h b g = ground arith
step-stage (suc (suc (suc (suc k)))) o t h b g = ground arith

run-stage :
    (k : ℕ) (os : List Op) (t : Transaction) {u : Transaction}
    → run os t ≡ ok u
    → k ≤ 4
    → stage t.state ≤ k
    → (stage u.state ≤ milestones k os) × (milestones k os ≤ 4)
unfolding run
run-stage k [] t h b g = ground arith
run-stage k (o ∷ os) t h b g =
    let (v, s, r) = run-cons o os t h in
    let (g', b') = step-stage k o t s b g in run-stage (advance k o) os v r b' g'

-- A run that starts from an issued transaction consumes it only if the run holds a verification, its
-- success, the start of the bootstrap and its commit, in that order.
pub consumed_needs :
    (os : List Op) (t : Transaction) {u : Transaction}
    → t.state ≡ issued
    → run os t ≡ ok u
    → u.state ≡ consumed
    → milestones 0 os ≡ 4
consumed_needs os t i h c = ground (arith, run-stage 0 os t h)

-- Once a transaction is terminal, no event and no resend comes through any more.
pub run-terminal :
    (o : Op) (os : List Op) (t : Transaction)
    → is_terminal t.state ≡ true
    → (x : TransitionError) × (run (o ∷ os) t ≡ err x) × (x.from ≡ t.state)
unfolding run apply_event resend_otp is_terminal
run-terminal (event e now) os t h = (record { from = t.state; event = e }, ground arith, refl)
run-terminal (resend now last cooldown) os t h =
    (record { from = t.state; event = request_otp }, ground arith, refl)
