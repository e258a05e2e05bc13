-- ===== src/Logout/Revocations.antt =====
-- What a revocation of src/app/api/auth/sessions/revoke answers.
use evirion_engineering_memo.Cookies.{CookieInstruction}
use evirion_engineering_memo.Prelude.{
  List, ◌≡◌, ◌⊎◌, inl, inr, refl, sym, subst, Bool-cases, false, [], Option, none, some, Text,
  codes, text_eq, text_eq_iff, includes,
}
use evirion_engineering_memo.Prelude.Json.{Json}
use evirion_engineering_memo.Session.{clear_session}
use evirion_engineering_memo.Logout.Removals.{
  Removes, session_names, IsUnknown, clear_session-Removes,
}
use evirion_engineering_memo.Guard.{
  GuardFailure, Form, FormValue, string, file, Request, passed, threw, guard_mutation,
  session_binding_from, form_get, stopped,
}
use evirion_engineering_memo.Commands.{World}
use evirion_engineering_memo.Commands.Admission.{GuardResult-cases}
use evirion_engineering_memo.Logout.{provider_effect_for}
use evirion_engineering_memo.Logout.Revoke.{
  Revoked, revoke_threw, revocation_selections, turned_away, revoked, revoke_selection, revoke,
}

-- The session ends: its slots are removed on the way to the sign-in, with this header.
abbrev pub EndsHere : Text → Revoked → Type 0
EndsHere header x =
    (cookies : List CookieInstruction) × (x ≡ revoked (codes "/auth/sign-in") cookies header)
    × Removes session_names cookies

-- What the four selections answer.
abbrev pub IsRevocation : Text → Revoked → Type 0
IsRevocation s x =
    ((s ≡ codes "current") × EndsHere (codes "local") x)
    ⊎ (((s ≡ codes "others") × (x ≡ revoked (codes "/settings/sessions") [] (codes "others")))
        ⊎ (((s ≡ codes "all") × EndsHere (codes "global") x)
            ⊎ ((s ≡ codes "selected")
                × (x ≡ revoked (codes "/settings/sessions") [] (codes "NOT_APPLICABLE")))))

-- What a selection answers: one that is no text or none of the four is turned away.
abbrev pub IsSelected : Option FormValue → Revoked → Type 0
IsSelected o x =
    (((s : Text) → o ≡ some (string s) → IsUnknown s)
      × (x ≡ turned_away (codes "/settings/sessions")))
    ⊎ ((s : Text) × (o ≡ some (string s)) × IsRevocation s x)

selection_cases :
    (s : Text)
    → ((includes revocation_selections s ≡ false) × IsUnknown s)
      ⊎ ((s ≡ codes "current")
          ⊎ ((s ≡ codes "others") ⊎ ((s ≡ codes "all") ⊎ (s ≡ codes "selected"))))
unfolding includes revocation_selections text_eq
selection_cases s = elim (Bool-cases (text_eq (codes "current") s)) [
  | inl a ↦ inr (inl (sym ((text_eq_iff _ _).0 a)))
  | inr a ↦ elim (Bool-cases (text_eq (codes "others") s)) [
    | inl b ↦ inr (inr (inl (sym ((text_eq_iff _ _).0 b))))
    | inr b ↦ elim (Bool-cases (text_eq (codes "all") s)) [
      | inl c ↦ inr (inr (inr (inl (sym ((text_eq_iff _ _).0 c)))))
      | inr c ↦ elim (Bool-cases (text_eq (codes "selected") s)) [
        | inl d ↦ inr (inr (inr (inr (sym ((text_eq_iff _ _).0 d)))))
        | inr d ↦ inl (
          rw (a, b, c, d) refl,
          (λ e. cc (rw e at a), λ e. cc (rw e at b), λ e. cc (rw e at c), λ e. cc (rw e at d)),
        )
      ]
    ]
  ]
]

abbrev Answered : Text → Type 0
Answered s = IsRevocation s (revoke_selection (some (string s)))

current-Answered : Answered (codes "current")
unfolding includes revocation_selections provider_effect_for text_eq
current-Answered = inl (refl, (clear_session, refl, clear_session-Removes))

others-Answered : Answered (codes "others")
unfolding includes revocation_selections provider_effect_for text_eq
others-Answered = inr (inl (refl, refl))

all-Answered : Answered (codes "all")
unfolding includes revocation_selections provider_effect_for text_eq
all-Answered = inr (inr (inl (refl, (clear_session, refl, clear_session-Removes))))

selected-Answered : Answered (codes "selected")
unfolding includes revocation_selections provider_effect_for text_eq
selected-Answered = inr (inr (inr (refl, refl)))

string_inv : {s t : Text} → ◌≡◌ {A = Option FormValue} (some (string s)) (some (string t)) → s ≡ t
string_inv h = cc

revoke_selection-IsSelected : (o : Option FormValue) → IsSelected o (revoke_selection o)
revoke_selection-IsSelected none = inl (λ s e. absurd (cc), refl)
revoke_selection-IsSelected (some file) = inl (λ s e. absurd (cc), refl)
revoke_selection-IsSelected (some (string s)) = elim (selection_cases s) [
  | inl (other, unknown) ↦ inl (λ t e. subst IsUnknown (string_inv e) unknown, rw other refl)
  | inr (inl e) ↦ inr (s, refl, subst Answered (sym e) current-Answered)
  | inr (inr (inl e)) ↦ inr (s, refl, subst Answered (sym e) others-Answered)
  | inr (inr (inr (inl e))) ↦ inr (s, refl, subst Answered (sym e) all-Answered)
  | inr (inr (inr (inr e))) ↦ inr (s, refl, subst Answered (sym e) selected-Answered)
]

-- What a revocation does behind each verdict of the guard: it throws where the guard does and sends a
-- refused request to the sign-in. Of a guarded request, `current` and `all` end the session, with removals
-- of its five slots, on the way to the sign-in and with the provider effects `local` and `global`; `others`
-- and `selected` go to the list of the sessions, set no cookie and have the effects `others` and
-- `NOT_APPLICABLE`; and any other selection is turned away to that list.
pub revoke-IsRevocation :
    (w : World) (r : Request)
    → ((form : Form) × (binding : Json) × (guard_mutation w.decode w.environment w.now
            (session_binding_from w.decode w.now)
            r
          ≡ passed form binding)
        × IsSelected (form_get (codes "selection") form) (revoke w r))
      ⊎ (((e : GuardFailure) × (guard_mutation w.decode w.environment w.now
                (session_binding_from w.decode w.now)
                r
              ≡ stopped e)
            × (revoke w r ≡ turned_away (codes "/auth/sign-in")))
          ⊎ ((guard_mutation w.decode w.environment w.now (session_binding_from w.decode w.now) r
                ≡ threw)
              × (revoke w r ≡ revoke_threw)))
unfolding revoke
revoke-IsRevocation w r =
    elim (GuardResult-cases
      (guard_mutation w.decode w.environment w.now (session_binding_from w.decode w.now) r)) [
        | inr (inr k) ↦ inr (inr (k, rw k refl))
        | inr (inl (e, k)) ↦ inr (inl (e, k, rw k refl))
        | inl (form, binding, k) ↦ inl (
          form,
          binding,
          k,
          rw k (revoke_selection-IsSelected (form_get (codes "selection") form)),
        )
      ]
