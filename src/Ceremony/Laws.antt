-- ===== src/Ceremony/Laws.antt =====
-- What the ceremony of src/app/api/session/reauthentication asks before a paused mutation runs again.
use evirion_engineering_memo.Prelude.{
  ok, err, if◌then◌else◌, ◌≡◌, ◌≢◌, inl, inr, refl, sym, subst, ap, ◌∙◌, true, false, Bool, List,
  [], Option, none, some, Bool-cases, Text, codes, text_eq_iff,
}
use evirion_engineering_memo.Prelude.Json.{Json, null, boolean, number, text, array, object, get}
use evirion_engineering_memo.Session.{
  StoredSession, ReadOutcome, active, anonymous, refused, read_session,
}
use evirion_engineering_memo.Guard.{
  Form, FormValue, string, file, Request, GuardResult, passed, stopped, threw, guard_mutation,
  session_binding_from, form_get,
}
use evirion_engineering_memo.ConsoleApi.{ConsoleResult, success, failure}
use evirion_engineering_memo.Reauth.State.{Read, nothing, raised as read_raised, found}
use evirion_engineering_memo.Commands.{World}
use evirion_engineering_memo.Adapters.{Call}
use evirion_engineering_memo.Routes.{Services, Reply, replied, raised}
use evirion_engineering_memo.Ceremony.{
  Ceremony, Verified, Leave, replay_pending_mutation, redirect_back_for_ceremony,
  read_pending_from_request, read_challenge_from_request, text_member,
}
use evirion_engineering_memo.Ceremony.Complete.{
  Completed, calls_of, Step, go, stop, leave, and_step, guarded, is_six_digits, check_code,
  check_state, check_session, is_same, check_owner, from_option, check_completion, write_upgraded,
  land, resume, upgraded, complete, back, read_code, read_state, read_holder, prove,
  challenge_factor, verify, consume, replay_upgraded,
}

abbrev pub reply_calls : Reply → List Call
reply_calls (replied calls response) = calls
reply_calls (raised calls) = calls

-- What the second factor and the challenge have shown of the session.
pub record IsProved (c : Ceremony) (code : Text) (pending challenge : Json)
    (session : StoredSession) : Type 0 where
  pub factor : Text
  pub verified : Verified
  pub receipt : Text
  pub request_id : Text
  pub owned : get (codes "providerSessionId") challenge ≡ some (text session.provider_session_id)
  pub factored : c.challenge_totp session.access_token ≡ some factor
  pub proven : c.verify_totp session.access_token factor code ≡ some verified
  pub consumed :
      c.complete verified.access_token
        (get (codes "actionClass") pending)
        (get (codes "challengeId") challenge)
      ≡ success receipt request_id

-- What the ceremony has established when it replays.
pub record IsStepUp (w : World) (c : Ceremony) (r : Request) (pending : Json) : Type 0 where
  pub form : Form
  pub binding : Json
  pub code : Text
  pub challenge : Json
  pub session : StoredSession
  pub generation : Text
  pub guarded :
      guard_mutation w.decode w.environment w.now (session_binding_from w.decode w.now) r
      ≡ passed form binding
  pub submitted : form_get (codes "totp") form ≡ some (string code)
  pub six_digits : is_six_digits code ≡ true
  pub paused : read_pending_from_request w r ≡ found pending
  pub challenged : read_challenge_from_request w r ≡ found challenge
  pub held : read_session w.decode r.cookies w.now ≡ active session generation
  pub proved : IsProved c code pending challenge session

leave-calls : (calls : List Call) (l : Leave) → calls_of (leave calls l) ≡ calls
leave-calls calls none = refl
leave-calls calls (some (location, cookies)) = refl

-- A step that does not go on makes no call.
and_step_inv :
    {A : Type 0} (s : Step A) (k : A → Completed)
    → calls_of (and_step s k) ≢ []
    → (a : A) × (s ≡ go a) × (calls_of (k a) ≢ []) × (calls_of (and_step s k) ≡ calls_of (k a))
and_step_inv (go a) k h = (a, refl, h, refl)
and_step_inv (stop l) k h = absurd (h (leave-calls [] l))

go_inv : {A : Type 0} {a b : A} → go a ≡ go b → a ≡ b
go_inv h = cc

guarded_inv :
    (g : GuardResult) {form : Form}
    → guarded g ≡ go form
    → (binding : Json) × (g ≡ passed form binding)
guarded_inv (passed form binding) h = (binding, cc)
guarded_inv (stopped e) h = absurd (cc)
guarded_inv threw h = absurd (cc)

check_code_inv :
    (l : Leave) (o : Option FormValue) {code : Text}
    → check_code l o ≡ go code
    → (o ≡ some (string code)) × (is_six_digits code ≡ true)
check_code_inv l none h = absurd (cc)
check_code_inv l (some file) h = absurd (cc)
check_code_inv l (some (string s)) {code} h = elim (Bool-cases (is_six_digits s)) [
  | inr bad ↦ absurd (cc (rw bad at h))
  | inl good ↦
      let same = go_inv (rw good at h) in
      (ap (λ x. some (string x)) same, subst (λ x. is_six_digits x ≡ true) same good)
]

check_state_inv :
    (l : Leave) (p q : Read) {pending challenge : Json}
    → check_state l p q ≡ go (pending, challenge)
    → (p ≡ found pending) × (q ≡ found challenge)
check_state_inv l read_raised q h = absurd (cc)
check_state_inv l nothing read_raised h = absurd (cc)
check_state_inv l (found p) read_raised h = absurd (cc)
check_state_inv l nothing nothing h = absurd (cc)
check_state_inv l nothing (found q) h = absurd (cc)
check_state_inv l (found p) nothing h = absurd (cc)
check_state_inv l (found p) (found q) h =
    (ap (λ x. found (x.0)) (go_inv h), ap (λ x. found (x.1)) (go_inv h))

check_session_inv :
    (o : ReadOutcome) {s : StoredSession}
    → check_session o ≡ go s
    → (generation : Text) × (o ≡ active s generation)
check_session_inv (active s generation) h = (generation, cc)
check_session_inv anonymous h = absurd (cc)
check_session_inv (refused reason clear) h = absurd (cc)

is_same_inv : (o : Option Json) (id : Text) → is_same (text_member o) id ≡ true → o ≡ some (text id)
is_same_inv none id h = absurd (cc)
is_same_inv (some null) id h = absurd (cc)
is_same_inv (some (boolean b)) id h = absurd (cc)
is_same_inv (some (number n)) id h = absurd (cc)
is_same_inv (some (text s)) id h = ap (λ x. some (text x)) ((text_eq_iff s id).0 h)
is_same_inv (some (array es)) id h = absurd (cc)
is_same_inv (some (object fs)) id h = absurd (cc)

owner_inv :
    (l : Leave) (s : StoredSession) (j : Json) (b : Bool) {k : Json}
    → (if b then go j else stop l) ≡ go k
    → (j ≡ k) × (b ≡ true)
owner_inv l s j true h = (go_inv h, refl)
owner_inv l s j false h = absurd (cc)

check_owner_inv :
    (l : Leave) (s : StoredSession) (j : Json) {k : Json}
    → check_owner l s j ≡ go k
    → (j ≡ k)
      × (is_same (text_member (get (codes "providerSessionId") j)) s.provider_session_id ≡ true)
check_owner_inv l s null h = absurd (cc)
check_owner_inv l s (boolean b) h = owner_inv l s (boolean b) _ h
check_owner_inv l s (number n) h = owner_inv l s (number n) _ h
check_owner_inv l s (text t) h = owner_inv l s (text t) _ h
check_owner_inv l s (array es) h = owner_inv l s (array es) _ h
check_owner_inv l s (object fs) h = owner_inv l s (object fs) _ h

from_option_inv :
    {A : Type 0} (l : Leave) (o : Option A) {a : A} → from_option l o ≡ go a → o ≡ some a
from_option_inv l none h = absurd (cc)
from_option_inv l (some a) h = ap some (go_inv h)

check_completion_inv :
    (back : Text → Leave) (answer : ConsoleResult Text) {receipt : Text}
    → check_completion back answer ≡ go receipt
    → (request_id : Text) × (answer ≡ success receipt request_id)
check_completion_inv back (failure e) h = absurd (cc)
check_completion_inv back (success receipt request_id) h =
    (request_id, ap (λ x. success x request_id) (go_inv h))

module _ (w : World) (api : Services) (c : Ceremony) (r : Request) where
  write_upgraded-calls :
      (calls : List Call) (location : Text) (s : StoredSession) (o : _)
      → calls_of (write_upgraded w api c r calls location s o) ≡ calls
  write_upgraded-calls calls location s (err e) = refl
  write_upgraded-calls calls location s (ok cookies) = refl

  land-calls :
      (calls : List Call) (s : StoredSession) (o : Option Text)
      → calls_of (land w api c r calls s o) ≡ calls
  land-calls calls s none = leave-calls calls _
  land-calls calls s (some location) = write_upgraded-calls calls location s _

  pub resume-calls :
      (s : StoredSession) (reply : Reply) → calls_of (resume w api c r s reply) ≡ reply_calls reply
  resume-calls s (raised calls) = leave-calls calls _
  resume-calls s (replied calls response) = land-calls calls s _

  -- What the steps behind the session ask.
  prove-IsProved :
      (code : Text) (pending challenge : Json) (s : StoredSession)
      → calls_of (prove w api c r code (pending, challenge) s) ≢ []
      → (calls_of (prove w api c r code (pending, challenge) s)
          ≡ reply_calls (replay_pending_mutation w api c r pending))
        × IsProved c code pending challenge s
  prove-IsProved code pending challenge s h =
      let (k, e5, h5, q5) =
        and_step_inv (check_owner _ s challenge) (challenge_factor w api c r code pending s) h in
      let (factor, e6, h6, q6) =
        and_step_inv (from_option _ _) (verify w api c r code pending s k) h5 in
      let (verified, e7, h7, q7) =
        and_step_inv (from_option _ _) (consume w api c r pending s k) h6 in
      let (receipt, e8, h8, q8) =
        and_step_inv (check_completion (redirect_back_for_ceremony w r) _)
          (replay_upgraded w api c r pending s verified) h7 in
      let (same, owned) = check_owner_inv _ s challenge e5 in
      let (request_id, consumed) = check_completion_inv (redirect_back_for_ceremony w r) _ e8 in
      (
        q5
            ∙ (q6
                ∙ (q7
                    ∙ (q8
                        ∙ resume-calls (upgraded w.now s verified)
                            (replay_pending_mutation w api c r pending)))),
        record {
          factor = factor;
          verified = verified;
          receipt = receipt;
          request_id = request_id;
          owned = is_same_inv _ _ owned;
          factored = from_option_inv _ _ e6;
          proven = from_option_inv _ _ e7;
          consumed =
              subst
                (λ j.
                  c.complete verified.access_token (get (codes "actionClass") pending)
                    (get (codes "challengeId") j)
                  ≡ success receipt request_id)
                (sym same) consumed;
        },
      )

  -- The ceremony calls the backend for a mutation only behind every check: a guarded request with six
  -- digits; a paused mutation and a challenge, both signed, of which the challenge names the provider
  -- session of the live session; a second factor that the provider has verified; and the challenge
  -- consumed by the backend for the action class of the mutation. The calls are then those that the
  -- replay of that mutation makes.
  pub complete-IsStepUp :
      calls_of (complete w api c r) ≢ []
      → (pending : Json) × IsStepUp w c r pending
        × (calls_of (complete w api c r) ≡ reply_calls (replay_pending_mutation w api c r pending))
  unfolding complete
  complete-IsStepUp h =
      let (form, e1, h1, q1) = and_step_inv (guarded _) (read_code w api c r) h in
      let (code, e2, h2, q2) =
        and_step_inv
          (check_code (redirect_back_for_ceremony w r (codes "REQUEST_INVALID"))
            (form_get (codes "totp") form))
          (read_state w api c r) h1 in
      let (state, e3, h3, q3) = and_step_inv (check_state _ _ _) (read_holder w api c r code) h2 in
      let (s, e4, h4, q4) = and_step_inv (check_session _) (prove w api c r code state) h3 in
      let (binding, guarded) = guarded_inv _ e1 in
      let (submitted, digits) =
        check_code_inv (redirect_back_for_ceremony w r (codes "REQUEST_INVALID"))
          (form_get (codes "totp") form) e2 in
      let (paused, challenged) = check_state_inv _ _ _ e3 in
      let (generation, held) = check_session_inv _ e4 in
      let (made, proved) = prove-IsProved code state.0 state.1 s h4 in
      (
        state.0,
        record {
          form = form;
          binding = binding;
          code = code;
          challenge = state.1;
          session = s;
          generation = generation;
          guarded = guarded;
          submitted = submitted;
          six_digits = digits;
          paused = paused;
          challenged = challenged;
          held = held;
          proved = proved;
        },
        q1 ∙ (q2 ∙ (q3 ∙ (q4 ∙ made))),
      )
