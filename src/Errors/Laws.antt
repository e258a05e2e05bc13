-- ===== src/Errors/Laws.antt =====
-- What src/lib/errors/console-errors.ts shows of a failure.
use evirion_engineering_memo.Prelude.{
  some_inv, ◌≡◌, ◌⊎◌, inl, inr, refl, sym, ap, ◌∙◌, false, List, [], ◌∷◌, some, Option-cases, Text,
  codes, text_eq,
}
use evirion_engineering_memo.ConsoleApi.{ConsoleError}
use evirion_engineering_memo.Reauth.{switch}
use evirion_engineering_memo.Errors.{
  ErrorTreatment, sign_in_required, reauthentication_required, switch_organization, not_permitted,
  reload_and_resubmit, state_final, waiting_on_evirion, unknown_outcome, retry_bounded, field_level,
  non_retryable, treatments, treatment_for_code, unknown_error, map_console_error,
  describe_treatment,
}

unknown_error-treated : treatment_for_code unknown_error.code ≡ some unknown_error.treatment
unfolding treatment_for_code treatments switch text_eq unknown_error
unknown_error-treated = refl

unknown_error-final : unknown_error.retryable ≡ false
unfolding unknown_error
unknown_error-final = refl

-- Whatever code a failure carries, the code that is shown has in the table the treatment that is shown,
-- so that a page that gets only the code treats it the same way; and what is shown may be retried only
-- if the backend says that the failure may.
pub map_console_error-treated :
    (e : ConsoleError)
    → (treatment_for_code (map_console_error e).code ≡ some (map_console_error e).treatment)
      × (((map_console_error e).retryable ≡ false)
          ⊎ ((map_console_error e).retryable ≡ e.retryable))
unfolding map_console_error
map_console_error-treated e = elim (Option-cases (treatment_for_code e.code)) [
  | inl unlisted ↦ rw unlisted (unknown_error-treated, inl unknown_error-final)
  | inr (t, listed) ↦ rw listed (listed, inr refl)
]

abbrev descriptions : List (Text × ErrorTreatment)
descriptions =
    (codes "Sign in to continue.", sign_in_required)
    ∷ (codes "Confirm your identity to continue.", reauthentication_required)
    ∷ (
      codes "This needs an organization membership your account does not have.",
      switch_organization,
    )
    ∷ (codes "This is not available for your account.", not_permitted)
    ∷ (codes "This changed while you were working. Reload and try again.", reload_and_resubmit)
    ∷ (codes "This action is not available in the current state.", state_final)
    ∷ (codes "Evirion authorization is pending. There is nothing to do here.", waiting_on_evirion)
    ∷ (codes "The outcome is not known yet. Refresh to check again.", unknown_outcome)
    ∷ (codes "The service is busy. Try again shortly.", retry_bounded)
    ∷ (codes "Check the highlighted fields and try again.", field_level)
    ∷ (codes "Something went wrong and nothing was changed.", non_retryable)
    ∷ []

descriptions-describe : (t : ErrorTreatment) → switch descriptions (describe_treatment t) ≡ some t
unfolding switch text_eq describe_treatment
descriptions-describe sign_in_required = refl
descriptions-describe reauthentication_required = refl
descriptions-describe switch_organization = refl
descriptions-describe not_permitted = refl
descriptions-describe reload_and_resubmit = refl
descriptions-describe state_final = refl
descriptions-describe waiting_on_evirion = refl
descriptions-describe unknown_outcome = refl
descriptions-describe retry_bounded = refl
descriptions-describe field_level = refl
descriptions-describe non_retryable = refl

-- No two treatments are told to the reader in the same words.
describe_treatment-injective :
    (s t : ErrorTreatment) → describe_treatment s ≡ describe_treatment t → s ≡ t
describe_treatment-injective s t h =
    some_inv (sym (descriptions-describe s) ∙ ap (switch descriptions) h ∙ descriptions-describe t)
