-- ===== src/Commands/Admission.antt =====
-- What a command of src/server/actions has established when it is ready, and where a paused one goes.
use evirion_engineering_memo.Prelude.{
  some_inv, and_inv, ◌≡◌, refl, ◌⊎◌, inl, inr, subst, ap, ◌∙◌, true, ◌&&◌, Option, some,
  Option-cases, Bool-cases, Text, codes,
}
use evirion_engineering_memo.Prelude.Json.{Json}
use evirion_engineering_memo.Session.{
  StoredSession, ReadOutcome, anonymous, active, refused, read_session,
}
use evirion_engineering_memo.Guard.{
  Form, Request, GuardResult, GuardFailure, passed, stopped, threw, guard_mutation,
  session_binding_from,
}
use evirion_engineering_memo.ConsoleApi.{ConsoleResult, success, failure, is_uuid}
use evirion_engineering_memo.Commands.{
  World, Context, Scope, ready, begin_context, begin_session, begin_with, form_text,
}
use evirion_engineering_memo.Commands.Resources.{CommandFields, import_fields}

-- A command that is ready.
pub record IsReady {F : Type 0} (w : World) (fields : Form → Option F) (r : Request) (scope : Scope)
    (f : F) (context : Context) : Type 0 where
  pub form : Form
  pub binding : Json
  pub session : StoredSession
  pub generation : Text
  pub request_id : Text
  pub guarded :
      guard_mutation w.decode w.environment w.now (session_binding_from w.decode w.now) r
      ≡ passed form binding
  pub admitted : fields form ≡ some f
  pub held : read_session w.decode r.cookies w.now ≡ active session generation
  pub projected : w.fetch_context session.access_token ≡ success context request_id
  pub organization : scope.organization_id ≡ context.organization_id
  pub token : scope.access_token ≡ session.access_token

pub GuardResult-cases :
    (g : GuardResult)
    → ((form : Form) × (b : Json) × (g ≡ passed form b))
      ⊎ (((e : GuardFailure) × (g ≡ stopped e)) ⊎ (g ≡ threw))
GuardResult-cases (passed form b) = inl (form, b, refl)
GuardResult-cases (stopped e) = inr (inl (e, refl))
GuardResult-cases threw = inr (inr refl)

module _ {F : Type 0} (w : World) (fields : Form → Option F) (path : Form → Text) where
  begin_context_inv :
      (access_token : Text) (form : Form) (f g : F) (answer : ConsoleResult Context) (scope : Scope)
      (context : Context)
      → begin_context w fields path access_token form f answer ≡ ready scope g context
      → (request_id : Text) × (answer ≡ success context request_id)
        × (f ≡ g)
        × (scope.organization_id ≡ context.organization_id)
        × (scope.access_token ≡ access_token)
  begin_context_inv access_token form f g (failure e) scope context h = absurd (cc)
  begin_context_inv access_token form f g (success found request_id) scope context h =
      (request_id, cc, cc, cc, cc)

  begin_session_inv :
      (form : Form) (f g : F) (outcome : ReadOutcome) (scope : Scope) (context : Context)
      → begin_session w fields path form f outcome ≡ ready scope g context
      → (s : StoredSession) × (generation : Text) × (outcome ≡ active s generation)
        × (begin_context w fields path s.access_token form f (w.fetch_context s.access_token)
            ≡ ready scope g context)
  begin_session_inv form f g anonymous scope context h = absurd (cc)
  begin_session_inv form f g (refused reason clear) scope context h = absurd (cc)
  begin_session_inv form f g (active s generation) scope context h = (s, generation, refl, h)

  -- A command that is ready has passed the guard, has read its fields, holds a live session, and got the
  -- session context for that session's token; its organization is the backend's and its token the
  -- session's, and neither is anything that the form carries.
  pub begin_with-IsReady :
      (r : Request) (scope : Scope) (f : F) (context : Context)
      → begin_with w fields path r ≡ ready scope f context
      → IsReady w fields r scope f context
  unfolding begin_with
  begin_with-IsReady r scope f context h =
      elim (GuardResult-cases
        (guard_mutation w.decode w.environment w.now (session_binding_from w.decode w.now) r)) [
          | inr (inl (e, k)) ↦ absurd (cc (rw k at h))
          | inr (inr k) ↦ absurd (cc (rw k at h))
          | inl (form, b, k) ↦ elim (Option-cases (fields form)) [
            | inl e ↦ absurd (cc (rw (k, e) at h))
            | inr (g, e) ↦
                let (s, generation, held, h2) =
                  begin_session_inv form g f (read_session w.decode r.cookies w.now) scope context
                    (rw (k, e) at h) in
                let (request_id, projected, same, organization, token) =
                  begin_context_inv s.access_token form g f _ scope context h2 in
                record {
                  form = form;
                  binding = b;
                  session = s;
                  generation = generation;
                  request_id = request_id;
                  guarded = k;
                  admitted = e ∙ ap some same;
                  held = held;
                  projected = projected;
                  organization = organization;
                  token = token;
                }
          ]
        ]

-- The fields of an import or a memory command are read only if both identifiers are UUIDs.
pub import_fields-uuid :
    (form : Form) (f : CommandFields)
    → import_fields form ≡ some f
    → (is_uuid f.id ≡ true)
      × (is_uuid f.idempotency_key ≡ true)
      × (f.form ≡ form)
      × (f.id ≡ form_text (codes "repositoryId") form)
unfolding import_fields
import_fields-uuid form f h =
    elim (Bool-cases (
      is_uuid (form_text (codes "repositoryId") form)
      && is_uuid (form_text (codes "idempotencyKey") form))) [
        | inr bad ↦ absurd (cc (rw bad at h))
        | inl good ↦
            let (i, k) = and_inv _ _ good in
            let e = rw good at h in
            (
              subst (λ x. is_uuid (x.id) ≡ true) (some_inv e) i,
              subst (λ x. is_uuid (x.idempotency_key) ≡ true) (some_inv e) k,
              cc,
              cc,
            )
      ]
