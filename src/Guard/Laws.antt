-- ===== src/Guard/Laws.antt =====
-- What a request has shown that passes the guard of src/server/actions/mutation-guard.ts.
use evirion_engineering_memo.Prelude.{
  ℕ, ◌≡◌, ◌<◌, refl, subst, ap, ◌⊎◌, inl, inr, Option, none, some, Text, codes,
}
use evirion_engineering_memo.Prelude.Json.{Json}
use evirion_engineering_memo.Cookies.{Cookies, session_cookie_base, valid}
use evirion_engineering_memo.Cookies.Parse.{lookup, parse_session_cookies}
use evirion_engineering_memo.Session.{
  StoredSession, ReadOutcome, anonymous, active, refused, read_session, stored_session,
}
use evirion_engineering_memo.Session.Laws.{read_session_active}
use evirion_engineering_memo.Csrf.{Binding, session, Verification, valid as proven, invalid}
use evirion_engineering_memo.Csrf.Verify.{IsProof, verify_token-IsProof}
use evirion_engineering_memo.Origin.{
  Rejection, OriginResult, allowed, rejected, assert_mutation_origin,
}
use evirion_engineering_memo.Origin.Laws.{IsSameOrigin, assert_mutation_origin_iff}
use evirion_engineering_memo.Guard.{
  FormValue, string, file, Form, Request, Environment, passed, form_get, as_string, csrf_cookie_of,
  mutation_request, verify_form, guard_verification, guard_form, guard_binding, guard_mutation,
  session_binding, session_binding_from,
}

pub OriginResult-cases :
    (o : OriginResult) → ((t : Text) × (o ≡ allowed t)) ⊎ ((e : Rejection) × (o ≡ rejected e))
OriginResult-cases (allowed t) = inl (t, refl)
OriginResult-cases (rejected e) = inr (e, refl)

guard_verification_inv :
    (form given : Form) (v : Verification) {b : Json}
    → guard_verification form v ≡ passed given b
    → (form ≡ given) × (v ≡ proven b)
guard_verification_inv form given (invalid reason) h = absurd (cc)
guard_verification_inv form given (proven b) h = (cc, cc)

guard_form_inv :
    (decode : Text → Option Json) (env : Environment) (now : ℕ) (cookies : Cookies)
    (expected : Binding) (o : Option Form) {form : Form} {b : Json}
    → guard_form decode env now cookies expected o ≡ passed form b
    → (o ≡ some form) × (verify_form decode env now cookies expected form ≡ proven b)
guard_form_inv decode env now cookies expected none h = absurd (cc)
guard_form_inv decode env now cookies expected (some given) {form} {b} h =
    let (same, v) = guard_verification_inv given form _ h in
    (ap some same, subst (λ f. verify_form decode env now cookies expected f ≡ proven b) same v)

guard_binding_inv :
    (decode : Text → Option Json) (env : Environment) (now : ℕ) (r : Request) (o : Option Binding)
    {form : Form} {b : Json}
    → guard_binding decode env now r o ≡ passed form b
    → (expected : Binding) × (o ≡ some expected)
      × (r.form ≡ some form)
      × (verify_form decode env now r.cookies expected form ≡ proven b)
guard_binding_inv decode env now r none h = absurd (cc)
guard_binding_inv decode env now r (some expected) h =
    let (given, v) = guard_form_inv decode env now r.cookies expected r.form h in
    (expected, refl, given, v)

as_string_inv : (o : Option FormValue) {t : Text} → as_string o ≡ some t → o ≡ some (string t)
as_string_inv none h = absurd (cc)
as_string_inv (some file) h = absurd (cc)
as_string_inv (some (string s)) h = cc

-- A request that passes the guard is same-origin by every header; the caller's cookies name an expected
-- binding; and one proof, good now for that binding, is both in the cookie of the binding's kind and in
-- the form's field `csrfToken`.
pub guard_mutation-passed :
    (decode : Text → Option Json) (env : Environment) (now : ℕ) (binding : Cookies → Option Binding)
    (r : Request) (form : Form) (b : Json)
    → guard_mutation decode env now binding r ≡ passed form b
    → IsSameOrigin (mutation_request env r) env.canonical_origin
      × (expected : Binding) × (token : Text) × (binding r.cookies ≡ some expected)
      × (r.form ≡ some form)
      × (lookup (csrf_cookie_of expected) r.cookies ≡ some token)
      × (form_get (codes "csrfToken") form ≡ some (string token))
      × IsProof env.mac decode token expected now b
unfolding guard_mutation
guard_mutation-passed decode env now binding r form b h =
    elim (OriginResult-cases
      (assert_mutation_origin (mutation_request env r) env.canonical_origin)) [
        | inr (e, k) ↦ absurd (cc (rw k at h))
        | inl (o, k) ↦
            let (same, _) =
              (assert_mutation_origin_iff (mutation_request env r) env.canonical_origin o).0 k in
            let (expected, named, given, v) =
              guard_binding_inv decode env now r (binding r.cookies) (rw k at h) in
            let (token, cookie, submitted, proof) =
              verify_token-IsProof _ decode _ _ expected now b v in
            (same, expected, token, named, given, cookie, as_string_inv _ submitted, proof)
      ]

session_binding_inv :
    (o : ReadOutcome) {b : Binding}
    → session_binding o ≡ some b
    → (s : StoredSession) × (g : Text) × (o ≡ active s g) × (b ≡ session s.provider_session_id)
session_binding_inv anonymous h = absurd (cc)
session_binding_inv (refused reason clear) h = absurd (cc)
session_binding_inv (active s g) h = (s, g, refl, cc)

-- A request that passes the guard of a signed-in route holds a live session: its cookies reassemble to
-- a stored session whose absolute lifetime has not ended, and the proof is bound to the provider
-- session of that session and of no other.
pub guard_mutation-session :
    (decode : Text → Option Json) (env : Environment) (now : ℕ) (r : Request) (form : Form)
    (b : Json)
    → guard_mutation decode env now (session_binding_from decode now) r ≡ passed form b
    → (s : StoredSession) × (payload : Text) × (generation : Text) × (token : Text)
      × (parse_session_cookies session_cookie_base r.cookies ≡ valid payload generation)
      × (stored_session (decode payload) ≡ some s)
      × (now < s.absolute_expires_at)
      × IsProof env.mac decode token (session s.provider_session_id) now b
unfolding session_binding_from
guard_mutation-session decode env now r form b h =
    let (_, expected, token, named, _, _, _, proof) =
      guard_mutation-passed decode env now (session_binding_from decode now) r form b h in
    let (s, g, read, bound) = session_binding_inv (read_session decode r.cookies now) named in
    let (payload, whole, stored, live) = read_session_active decode r.cookies now s g read in
    (
      s,
      payload,
      g,
      token,
      whole,
      stored,
      live,
      subst (λ e. IsProof env.mac decode token e now b) bound proof,
    )
