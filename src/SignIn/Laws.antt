-- ===== src/SignIn/Laws.antt =====
-- What src/app/api/auth/verify-otp asks before a session is opened.
use evirion_engineering_memo.Prelude.{
  refl, ◌+◌, ◌≡◌, subst, ap, ◌∙◌, List, ◌++◌, some, ok, Text, codes,
}
use evirion_engineering_memo.Prelude.Json.{Json, text, get}
use evirion_engineering_memo.Cookies.{CookieInstruction}
use evirion_engineering_memo.Policy.{absolute_session_seconds}
use evirion_engineering_memo.Session.{StoredSession, write_session}
use evirion_engineering_memo.Origin.Laws.{IsSafePath}
use evirion_engineering_memo.Guard.{Form, string, Request, passed, guard_mutation, form_get}
use evirion_engineering_memo.ConsoleApi.{success}
use evirion_engineering_memo.Identity.{VerifiedUser, admitted, admit_verified_identity}
use evirion_engineering_memo.Commands.{World}
use evirion_engineering_memo.Ceremony.{Verified}
use evirion_engineering_memo.Logout.{clear_pre_auth_cookies}
use evirion_engineering_memo.Logout.Removals.{
  Removes, pre_auth_names, clear_pre_auth_cookies-Removes,
}
use evirion_engineering_memo.SignIn.{
  Bootstrap, Provider, signed_in, pre_auth_path, invitation_of, pre_auth_binding_from, guarded_form,
  field_text, checked, answer_of, admission_of, next_of, target_of, write_sign_in, opened,
  bootstrap_of, registered, register, issue, admit, identify, check_address, check_email_code,
  with_code, with_email, with_form, verify_otp,
}
use evirion_engineering_memo.SignIn.Checks.{
  and_then_inv, is_text_inv, tested_inv, guarded_form_inv, field_text_inv, checked_inv,
  answer_of_inv, admission_of_inv, next_of-IsSafePath, target_of-IsSafePath, write_sign_in_inv,
}

-- What is established of a verified address, and what the backend has registered.
pub record IsRegistered (w : World) (p : Provider) (r : Request) (form : Form)
    (email code location : Text) (cookies : List CookieInstruction) : Type 0 where
  pub verified : Verified
  pub id : Text
  pub user : VerifiedUser
  pub transaction : Text
  pub issued_by : Text
  pub receipt : Json
  pub registered_by : Text
  pub written : List CookieInstruction
  pub proven : p.verify_email_otp email code ≡ some verified
  pub identified : p.get_user verified.access_token ≡ some (id, user)
  pub admissible : admit_verified_identity user ≡ admitted
  pub issued :
      p.issue_pre_auth verified.access_token
        (pre_auth_path (invitation_of (form_get (codes "invitationId") form)))
      ≡ success transaction issued_by
  pub claim : Bootstrap
  pub claim_token : claim.access_token ≡ verified.access_token
  pub claim_subject : claim.subject ≡ id
  pub claim_session : claim.session_id ≡ user.session_id
  pub claim_transaction : claim.pre_auth_transaction_id ≡ transaction
  pub claim_invitation : claim.invitation_id ≡ invitation_of (form_get (codes "invitationId") form)
  pub bootstrapped : p.bootstrap claim (p.sign_bootstrap claim) ≡ success receipt registered_by
  pub session : StoredSession
  pub access : session.access_token ≡ verified.access_token
  pub refresh : session.refresh_token ≡ verified.refresh_token
  pub named : session.provider_session_id ≡ user.session_id
  pub expires : session.access_token_expires_at ≡ verified.access_token_expires_at
  pub lifetime : session.absolute_expires_at ≡ w.now + absolute_session_seconds
  pub wrote : write_session p.encode_session p.generation session w.now ≡ ok written
  pub removed : List CookieInstruction
  pub removes : Removes pre_auth_names removed
  pub answer : cookies ≡ removed ++ written
  pub safe : IsSafePath location

pub record IsSignIn (w : World) (p : Provider) (r : Request) (location : Text)
    (cookies : List CookieInstruction) : Type 0 where
  pub form : Form
  pub binding : Json
  pub email : Text
  pub code : Text
  pub guarded :
      guard_mutation w.decode w.environment w.now pre_auth_binding_from r ≡ passed form binding
  pub kind : get (codes "kind") binding ≡ some (text (codes "pre-auth"))
  pub addressed : get (codes "emailIdentityHmac") binding ≡ some (text (p.hmac_email email))
  pub email_of : form_get (codes "email") form ≡ some (string email)
  pub code_of : form_get (codes "code") form ≡ some (string code)
  pub registered : IsRegistered w p r form email code location cookies

module _ (w : World) (p : Provider) (r : Request) where
  registered_inv :
      (form : Form) (verified : Verified) (user : VerifiedUser) (receipt : Json) {location : Text}
      {cookies : List CookieInstruction}
      → registered w p r form verified user receipt ≡ signed_in location cookies
      → (written : List CookieInstruction) × (write_session p.encode_session p.generation
            (opened w p r verified user)
            w.now
          ≡ ok written)
        × (cookies ≡ clear_pre_auth_cookies ++ written)
        × IsSafePath location
  registered_inv form verified user receipt h =
      let (path, next, k) =
        and_then_inv (next_of (form_get (codes "next") form))
          (λ target.
            write_sign_in (target_of target)
              (write_session p.encode_session p.generation (opened w p r verified user) w.now))
          h in
      let (same, written, o, answer) = write_sign_in_inv (target_of path) _ k in
      (
        written,
        o,
        answer,
        subst IsSafePath same (target_of-IsSafePath path (next_of-IsSafePath _ next)),
      )

  check_email_code-IsRegistered :
      (form : Form) (email code : Text) {location : Text} {cookies : List CookieInstruction}
      → check_email_code w p r form code email ≡ signed_in location cookies
      → IsRegistered w p r form email code location cookies
  check_email_code-IsRegistered form email code h =
      let (verified, e1, h1) =
        and_then_inv (checked (p.verify_email_otp email code)) (identify w p r form) h in
      let (found, e2, h2) =
        and_then_inv (checked (p.get_user verified.access_token)) (admit w p r form verified) h1 in
      let (user, e3, h3) =
        and_then_inv (admission_of (found.1) (admit_verified_identity (found.1)))
          (issue w p r form verified (found.0)) h2 in
      let (same, admissible) = admission_of_inv (found.1) (admit_verified_identity (found.1)) e3 in
      let (transaction, e4, h4) =
        and_then_inv (answer_of _) (register w p r form verified (found.0) user) h3 in
      let (receipt, e5, h5) = and_then_inv (answer_of _) (registered w p r form verified user) h4 in
      let (issued_by, issued) = answer_of_inv _ e4 in
      let (registered_by, bootstrapped) = answer_of_inv _ e5 in
      let (written, session, answer, safe) = registered_inv form verified user receipt h5 in
      record {
        verified = verified;
        id = found.0;
        user = user;
        transaction = transaction;
        issued_by = issued_by;
        receipt = receipt;
        registered_by = registered_by;
        written = written;
        proven = checked_inv _ e1;
        identified = checked_inv _ e2 ∙ ap (λ x. some (found.0, x)) same;
        admissible = subst (λ x. admit_verified_identity x ≡ admitted) same admissible;
        issued = issued;
        claim =
            bootstrap_of w p r (invitation_of (form_get (codes "invitationId") form)) verified
              (found.0) user transaction;
        claim_token = refl;
        claim_subject = refl;
        claim_session = refl;
        claim_transaction = refl;
        claim_invitation = refl;
        bootstrapped = bootstrapped;
        session = opened w p r verified user;
        access = refl;
        refresh = refl;
        named = refl;
        expires = refl;
        lifetime = refl;
        wrote = session;
        removed = clear_pre_auth_cookies;
        removes = clear_pre_auth_cookies-Removes;
        answer = answer;
        safe = safe;
      }

  -- A sign-in opens a session only behind every check: a guarded request whose signed proof is of the
  -- pre-auth kind and carries the HMAC of the address that is submitted; the provider's verification of
  -- the code for that address; a user whom admission admits; a pre-auth transaction that the backend
  -- issued for the access token; and the session that the backend registered under the signed bootstrap
  -- proof, which names that token, user, provider session, transaction and the form's invitation. The cookies remove the five pre-auth cookies and carry the verified tokens under the provider session
  -- of that user, with the absolute lifetime from now on, and the reader goes on to a safe path.
  pub verify_otp-IsSignIn :
      (location : Text) (cookies : List CookieInstruction)
      → verify_otp w p r ≡ signed_in location cookies
      → IsSignIn w p r location cookies
  unfolding verify_otp
  verify_otp-IsSignIn location cookies h =
      let (state, e1, h1) =
        and_then_inv
          (guarded_form (guard_mutation w.decode w.environment w.now pre_auth_binding_from r))
          (with_form w p r) h in
      let (guarded, kind) = guarded_form_inv _ e1 in
      let (email, e2, h2) =
        and_then_inv (field_text (form_get (codes "email") (state.0)))
          (with_email w p r (state.0) (state.1)) h1 in
      let (code, e3, h3) =
        and_then_inv (field_text (form_get (codes "code") (state.0)))
          (with_code w p r (state.0) (state.1) email) h2 in
      let (address, e4, h4) =
        and_then_inv (check_address w p r (state.1) email) (check_email_code w p r (state.0) code)
          h3 in
      let (addressed, same) = tested_inv _ email _ e4 in
      record {
        form = state.0;
        binding = state.1;
        email = email;
        code = code;
        guarded = guarded;
        kind = kind;
        addressed = is_text_inv _ _ addressed;
        email_of = field_text_inv _ e2;
        code_of = field_text_inv _ e3;
        registered =
            check_email_code-IsRegistered (state.0) email code
              (ap (check_email_code w p r (state.0) code) same ∙ h4);
      }
