-- ===== src/SignIn/Checks.antt =====
-- What each check of src/app/api/auth/verify-otp says of a value that it lets through.
use evirion_engineering_memo.Prelude.{
  ◌≡◌, inl, inr, refl, subst, ap, Bool, true, false, Bool-cases, List, ◌++◌, Option, none, some,
  Result, ok, err, Text, codes, text_eq, text_eq_iff, starts_with, if◌then◌else◌,
}
use evirion_engineering_memo.Prelude.Json.{Json, null, boolean, number, text, array, object, get}
use evirion_engineering_memo.Cookies.{CookieInstruction, BudgetError}
use evirion_engineering_memo.Origin.{has_scheme, runs_to_colon}
use evirion_engineering_memo.Origin.Laws.{IsSafePath, resolve_safe_redirect-IsSafePath}
use evirion_engineering_memo.Guard.{
  Form, FormValue, string, file, GuardResult, passed, stopped, threw,
}
use evirion_engineering_memo.ConsoleApi.{ConsoleResult, success, failure, is_text}
use evirion_engineering_memo.Identity.{VerifiedUser, AdmissionResult, admitted, denied}
use evirion_engineering_memo.Logout.{clear_pre_auth_cookies}
use evirion_engineering_memo.SignIn.{
  SignedIn, signed_in, Refusal, refused_for, thrown_out, refusal_reply, and_then, guarded_form,
  field_text, checked, answer_of, admission_of, next_of, target_of, write_sign_in,
}

pub refusal_reply_inv :
    (e : Refusal) {location : Text} {cookies : List CookieInstruction} {B : Type 0}
    → refusal_reply e ≡ signed_in location cookies
    → B
refusal_reply_inv (refused_for outcome) h = absurd (cc)
refusal_reply_inv thrown_out h = absurd (cc)

pub and_then_inv :
    {A : Type 0} (s : Result Refusal A) (k : A → SignedIn) {location : Text}
    {cookies : List CookieInstruction}
    → and_then s k ≡ signed_in location cookies
    → (a : A) × (s ≡ ok a) × (k a ≡ signed_in location cookies)
and_then_inv (ok a) k h = (a, refl, h)
and_then_inv (err e) k h = refusal_reply_inv e h

pub ok_inv : {A : Type 0} {a b : A} → ◌≡◌ {A = Result Refusal A} (ok a) (ok b) → a ≡ b
ok_inv h = cc

pub is_text_inv : (s : Text) (o : Option Json) → is_text s o ≡ true → o ≡ some (text s)
is_text_inv s none h = absurd (cc)
is_text_inv s (some null) h = absurd (cc)
is_text_inv s (some (boolean b)) h = absurd (cc)
is_text_inv s (some (number n)) h = absurd (cc)
is_text_inv s (some (text t)) h = ap (λ x. some (text x)) ((text_eq_iff t s).0 h)
is_text_inv s (some (array es)) h = absurd (cc)
is_text_inv s (some (object fs)) h = absurd (cc)

-- A test that goes on with a value, or fails.
pub tested_inv :
    {A : Type 0} (b : Bool) (a : A) (e : Refusal) {x : A}
    → ◌≡◌ {A = Result Refusal A} (if b then ok a else err e) (ok x)
    → (b ≡ true) × (a ≡ x)
tested_inv true a e h = (refl, ok_inv h)
tested_inv false a e h = absurd (cc)

pub guarded_form_inv :
    (g : GuardResult) {state : Form × Json}
    → guarded_form g ≡ ok state
    → (g ≡ passed (state.0) (state.1))
      × (get (codes "kind") (state.1) ≡ some (text (codes "pre-auth")))
guarded_form_inv threw h = absurd (cc)
guarded_form_inv (stopped e) h = absurd (cc)
guarded_form_inv (passed form binding) h =
    let (kind, same) = tested_inv _ (form, binding) _ h in
    (
      ap (λ x. passed (x.0) (x.1)) same,
      subst (λ x. get (codes "kind") (x.1) ≡ some (text (codes "pre-auth"))) same
          (is_text_inv _ _ kind),
    )

pub field_text_inv : (o : Option FormValue) {s : Text} → field_text o ≡ ok s → o ≡ some (string s)
field_text_inv none h = absurd (cc)
field_text_inv (some file) h = absurd (cc)
field_text_inv (some (string s)) h = ap (λ x. some (string x)) (ok_inv h)

pub checked_inv : {A : Type 0} (o : Option A) {a : A} → checked o ≡ ok a → o ≡ some a
checked_inv none h = absurd (cc)
checked_inv (some a) h = ap some (ok_inv h)

pub answer_of_inv :
    {A : Type 0} (o : ConsoleResult A) {a : A}
    → answer_of o ≡ ok a
    → (request_id : Text) × (o ≡ success a request_id)
answer_of_inv (failure e) h = absurd (cc)
answer_of_inv (success a request_id) h = (request_id, ap (λ x. success x request_id) (ok_inv h))

pub admission_of_inv :
    (user : VerifiedUser) (o : AdmissionResult) {x : VerifiedUser}
    → admission_of user o ≡ ok x
    → (user ≡ x) × (o ≡ admitted)
admission_of_inv user admitted h = (ok_inv h, refl)
admission_of_inv user (denied reason) h = absurd (cc)

pub next_of-IsSafePath :
    (o : Option FormValue) {path : Text} → next_of o ≡ ok path → IsSafePath path
next_of-IsSafePath none h = subst IsSafePath (ok_inv h) (resolve_safe_redirect-IsSafePath none)
next_of-IsSafePath (some file) h = absurd (cc)
next_of-IsSafePath (some (string s)) h =
    subst IsSafePath (ok_inv h) (resolve_safe_redirect-IsSafePath (some s))

pub enroll-IsSafePath : IsSafePath (codes "/auth/mfa/enroll")
unfolding starts_with has_scheme runs_to_colon
enroll-IsSafePath = record {
  rooted = refl;
  one_slash = refl;
  no_backslash = refl;
  no_control = refl;
  no_scheme = refl;
}

pub target_of-IsSafePath : (path : Text) → IsSafePath path → IsSafePath (target_of path)
target_of-IsSafePath path safe = elim (Bool-cases (text_eq path (codes "/"))) [
  | inl root ↦ subst IsSafePath (rw root refl) enroll-IsSafePath
  | inr other ↦ subst IsSafePath (rw other refl) safe
]

pub write_sign_in_inv :
    (target : Text) (o : Result BudgetError (List CookieInstruction)) {location : Text}
    {cookies : List CookieInstruction}
    → write_sign_in target o ≡ signed_in location cookies
    → (target ≡ location)
      × (written : List CookieInstruction) × (o ≡ ok written)
      × (cookies ≡ clear_pre_auth_cookies ++ written)
write_sign_in_inv target (err e) h = absurd (cc)
write_sign_in_inv target (ok written) h = (cc, written, refl, cc)
