-- ===== src/Routes/Carried.antt =====
-- Which form a draft of a command of src/server/actions carries: the one that passed the guard.
use evirion_engineering_memo.Prelude.{
  List, ◌≡◌, ◌&&◌, inl, inr, sym, ap, Option, some, some_inv, Bool-cases, Text, codes,
}
use evirion_engineering_memo.Prelude.Json.{Json}
use evirion_engineering_memo.Guard.{Form, Request, passed, guard_mutation, session_binding_from}
use evirion_engineering_memo.ConsoleApi.{is_uuid}
use evirion_engineering_memo.Reauth.State.{form_fields_from}
use evirion_engineering_memo.Commands.{World, Context, Scope, form_text}
use evirion_engineering_memo.Commands.Resources.{
  CommandFields, RepositoryFields, identified, import_fields, knowledge_fields, membership_fields,
  repository_fields,
}
use evirion_engineering_memo.Commands.Admission.{IsReady}
use evirion_engineering_memo.Routes.Laws.{versioned_inv}

-- The fields are those of the form of a request that passed the guard.
pub record Carries (w : World) (r : Request) (fields : List (Text × Text)) : Type 0 where
  pub form : Form
  pub binding : Json
  pub guarded :
      guard_mutation w.decode w.environment w.now (session_binding_from w.decode w.now) r
      ≡ passed form binding
  pub carried : fields ≡ form_fields_from form

pub IsReady-Carries :
    {F : Type 0} (w : World) (fields : Form → Option F) (r : Request) (scope : Scope) (f : F)
    (context : Context) (a : IsReady w fields r scope f context) (form : Form)
    → form ≡ a.form
    → Carries w r (form_fields_from form)
IsReady-Carries w fields r scope f context a form e = record {
  form = a.form;
  binding = a.binding;
  guarded = a.guarded;
  carried = ap form_fields_from e;
}

identified-form :
    (id : Text) (form : Form) (f : CommandFields) → identified id form ≡ some f → f.form ≡ form
identified-form id form f h =
    elim (Bool-cases (is_uuid id && is_uuid (form_text (codes "idempotencyKey") form))) [
      | inr bad ↦ absurd (cc (rw bad at h))
      | inl good ↦ ap (λ x. x.form) (sym (some_inv (rw good at h)))
    ]

pub import_fields-form :
    (form : Form) (f : CommandFields) → import_fields form ≡ some f → f.form ≡ form
unfolding import_fields
import_fields-form form f h = identified-form _ form f h

pub knowledge_fields-form :
    (form : Form) (f : CommandFields) → knowledge_fields form ≡ some f → f.form ≡ form
unfolding knowledge_fields
knowledge_fields-form form f h = identified-form _ form f h

pub membership_fields-form :
    (form : Form) (f : Text × Form) → membership_fields form ≡ some f → f.1 ≡ form
unfolding membership_fields
membership_fields-form form f h =
    elim (Bool-cases (is_uuid (form_text (codes "idempotencyKey") form))) [
      | inr bad ↦ absurd (cc (rw bad at h))
      | inl good ↦ ap (λ x. x.1) (sym (some_inv (rw good at h)))
    ]

pub repository_fields-form :
    (w : World) (form : Form) (f : RepositoryFields)
    → repository_fields w form ≡ some f
    → f.fields.form ≡ form
unfolding repository_fields
repository_fields-form w form f h = identified-form _ form f.fields (versioned_inv _ _ h)
