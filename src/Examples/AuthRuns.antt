-- ===== src/Examples/AuthRuns.antt =====
-- Runs of the pre-auth transaction, of admission and of the landing.
use evirion_engineering_memo.Prelude.{
  ◌+◌, ◌≡◌, ◌↔◌, refl, true, false, List, [], ◌∷◌, some, ok, err, codes, text_eq, starts_with,
}
use evirion_engineering_memo.PreAuth.{
  issued, consumed, request_otp, otp_request_succeeded, otp_request_response_lost, verify_otp,
  otp_verify_succeeded, bootstrap_started, bootstrap_committed, revoke, Transaction,
  TransitionError, is_terminal, next_state, apply_event, resend_otp,
}
use evirion_engineering_memo.PreAuth.Traces.{
  Op, event, resend, step, run, resends, milestones, run_keeps, consumed_needs, run-terminal,
}
use evirion_engineering_memo.Identity.{VerifiedUser, aal2, admitted, admit_verified_identity}
use evirion_engineering_memo.Identity.Laws.{IsAdmissible, admit_verified_identity_iff}
use evirion_engineering_memo.Landing.{
  landing_page, landing_for_authenticated_reader, placeholder_root, is_auth_path,
}

abbrev fresh : Transaction
fresh = record {
  transaction_id = codes "t";
  state = issued;
  email_identity_hmac = codes "e";
  generation = 1;
  issued_at = 0;
  expires_at = 600;
}

abbrev sign_in : List Op
sign_in =
    event request_otp 1
    ∷ event otp_request_response_lost 2
    ∷ resend 90 2 60
    ∷ event otp_request_succeeded 91
    ∷ event verify_otp 100
    ∷ event otp_verify_succeeded 101
    ∷ event bootstrap_started 102
    ∷ event bootstrap_committed 103
    ∷ []

abbrev signed_in : Transaction
signed_in = record {
  transaction_id = codes "t";
  state = consumed;
  email_identity_hmac = codes "e";
  generation = 2;
  issued_at = 0;
  expires_at = 600;
}

sign_in-ok : run sign_in fresh ≡ ok signed_in
unfolding run step apply_event resend_otp next_state is_terminal
sign_in-ok = refl

consumed_needs_example : milestones 0 sign_in ≡ 4
consumed_needs_example = consumed_needs sign_in fresh refl sign_in-ok refl

run_keeps_example : signed_in ≡ record fresh { state = consumed; generation = 1 + resends sign_in }
run_keeps_example = run_keeps sign_in fresh sign_in-ok

consumed-terminal : is_terminal consumed ≡ true
unfolding is_terminal
consumed-terminal = refl

run-terminal_example :
    (x : TransitionError) × (run (event revoke 110 ∷ []) signed_in ≡ err x) × (x.from ≡ consumed)
run-terminal_example = run-terminal (event revoke 110) [] signed_in consumed-terminal

abbrev pub reader : VerifiedUser
reader = record {
  email = codes "a@b";
  email_verified = true;
  is_anonymous = false;
  amr = codes "otp" ∷ [] ∷ [];
  providers = codes "email" ∷ codes "email" ∷ [];
  session_id = codes "s";
  current_aal = aal2;
  next_aal = aal2;
}

admit_verified_identity_iff_example :
    (admit_verified_identity reader ≡ admitted) ↔ IsAdmissible reader
admit_verified_identity_iff_example = admit_verified_identity_iff reader

root-lands :
    landing_for_authenticated_reader (codes "/") (some (codes "navigate")) true ≡ some landing_page
unfolding landing_for_authenticated_reader is_auth_path placeholder_root starts_with text_eq
root-lands = refl
