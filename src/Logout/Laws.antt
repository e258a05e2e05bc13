-- ===== src/Logout/Laws.antt =====
-- When the logout of src/app/api/auth/logout answers.
use evirion_engineering_memo.Prelude.{
  ◌≡◌, ◌⊎◌, inl, inr, refl, Option, none, some, Option-cases, Text, codes, text_eq, List, ◌++◌,
}
use evirion_engineering_memo.Prelude.Json.{Json}
use evirion_engineering_memo.Session.{
  StoredSession, ReadOutcome, active, anonymous, refused, read_session,
}
use evirion_engineering_memo.Guard.{
  string, Form, FormValue, Request, passed, threw, guard_mutation, session_binding_from, form_get,
}
use evirion_engineering_memo.Commands.{World}
use evirion_engineering_memo.Commands.Admission.{GuardResult-cases}
use evirion_engineering_memo.Cookies.{CookieInstruction}
use evirion_engineering_memo.Logout.Removals.{
  Removes, session_names, other_names, IsUnknown, cleared_cookies-Removes,
  provider_effect_for-IsUnknown,
}
use evirion_engineering_memo.Logout.{
  effect_kind, logged_out, cleared_cookies, provider_effect_for, selected_effect, logout_session,
  logout,
}

-- The request names a revocation that there is none of, for a session that it holds with its proof.
pub record NamesUnknown (w : World) (r : Request) : Type 0 where
  pub form : Form
  pub binding : Json
  pub session : StoredSession
  pub generation : Text
  pub value : FormValue
  pub guarded :
      guard_mutation w.decode w.environment w.now (session_binding_from w.decode w.now) r
      ≡ passed form binding
  pub held : read_session w.decode r.cookies w.now ≡ active session generation
  pub submitted : form_get (codes "selection") form ≡ some value
  pub unknown : (s : Text) → value ≡ string s → IsUnknown s

selected_inv :
    (o : Option FormValue)
    → selected_effect o ≡ none
    → (value : FormValue) × (o ≡ some value) × ((s : Text) → value ≡ string s → IsUnknown s)
unfolding provider_effect_for text_eq
selected_inv none h = absurd (cc)
selected_inv (some value) h = (value, refl, λ s e. provider_effect_for-IsUnknown s (rw e at h))

session_cases :
    (form : Form) (o : ReadOutcome)
    → ((kind : Option Text) × (logout_session form o ≡ logged_out cleared_cookies kind))
      ⊎ ((s : StoredSession) × (generation : Text) × (o ≡ active s generation)
          × (selected_effect (form_get (codes "selection") form) ≡ none))
session_cases form anonymous = inl (none, refl)
session_cases form (refused reason clear) = inl (none, refl)
session_cases form (active s generation) =
    elim (Option-cases (selected_effect (form_get (codes "selection") form))) [
      | inl e ↦ inr (s, generation, refl, e)
      | inr (effect, e) ↦ inl (some (effect_kind effect), rw e refl)
    ]

-- A logout answers with a removal of exactly the five session slots, the five pre-auth cookies and the two
-- step-up cookies, whether or not the guard lets it through. There is no answer only where the guard
-- throws, or where a guarded request of a live session has a selection that is a file or another text than
-- the four.
pub logout-cleared :
    (w : World) (r : Request)
    → ((cookies : List CookieInstruction) × (kind : Option Text) × (logout w r
          ≡ logged_out cookies kind)
        × Removes (session_names ++ other_names) cookies)
      ⊎ ((guard_mutation w.decode w.environment w.now (session_binding_from w.decode w.now) r
            ≡ threw)
          ⊎ NamesUnknown w r)
unfolding logout
logout-cleared w r =
    elim (GuardResult-cases
      (guard_mutation w.decode w.environment w.now (session_binding_from w.decode w.now) r)) [
        | inr (inl (e, k)) ↦ inl (cleared_cookies, none, rw k refl, cleared_cookies-Removes)
        | inr (inr k) ↦ inr (inl k)
        | inl (form, binding, k) ↦
            elim (session_cases form (read_session w.decode r.cookies w.now)) [
              | inl (kind, e) ↦ inl (cleared_cookies, kind, rw k e, cleared_cookies-Removes)
              | inr (s, generation, held, unknown) ↦
                  let (value, submitted, none_of) = selected_inv _ unknown in
                  inr (
                    inr (record {
                      form = form;
                      binding = binding;
                      session = s;
                      generation = generation;
                      value = value;
                      guarded = k;
                      held = held;
                      submitted = submitted;
                      unknown = none_of;
                    }))
            ]
      ]
