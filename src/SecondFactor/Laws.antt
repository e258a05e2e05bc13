-- ===== src/SecondFactor/Laws.antt =====
-- What src/app/api/auth/mfa/challenge asks before a session is activated.
use evirion_engineering_memo.Prelude.{
  [], ◌∷◌, ◌+◌, ◌≡◌, ◌≤◌, refl, true, some, Text, codes, ok, err,
}
use evirion_engineering_memo.Prelude.Json.{Json}
use evirion_engineering_memo.Session.{StoredSession, active, read_session, write_session}
use evirion_engineering_memo.Guard.{
  Form, string, Request, passed, guard_mutation, session_binding_from, form_get,
}
use evirion_engineering_memo.Commands.{World}
use evirion_engineering_memo.Ceremony.{Ceremony, Verified}
use evirion_engineering_memo.Ceremony.Complete.{is_six_digits}
use evirion_engineering_memo.Policy.{absolute_session_seconds}
use evirion_engineering_memo.SecondFactor.{Factored, activated, write_factor, second_factor}

-- The provider session that is written: the one that the provider names, or else the one before.
abbrev pub NamesSession : Text → Text → Text → Type 0
NamesSession [] before id = id ≡ before
NamesSession (x ∷ named) before id = id ≡ x ∷ named

-- A session whose second factor the provider has verified, and what is written of it.
pub record IsFactored (w : World) (c : Ceremony) (code token : Text) (s : StoredSession)
    (result : Factored) : Type 0 where
  pub factor : Text
  pub verified : Verified
  pub factored : c.challenge_totp s.access_token ≡ some factor
  pub proven : c.verify_totp s.access_token factor code ≡ some verified
  pub token_of : verified.access_token ≡ token
  pub after : StoredSession
  pub access : after.access_token ≡ token
  pub refreshed : after.refresh_token ≡ verified.refresh_token
  pub expires : after.access_token_expires_at ≡ verified.access_token_expires_at
  pub same : NamesSession verified.session_id s.provider_session_id after.provider_session_id
  pub lifetime : after.absolute_expires_at ≤ s.absolute_expires_at
  pub within : after.absolute_expires_at ≤ w.now + absolute_session_seconds
  pub written :
      result ≡ write_factor verified (write_session c.encode_session c.generation after w.now)

pub record IsActivation (w : World) (c : Ceremony) (r : Request) (token : Text) : Type 0 where
  pub form : Form
  pub binding : Json
  pub code : Text
  pub session : StoredSession
  pub generation : Text
  pub guarded :
      guard_mutation w.decode w.environment w.now (session_binding_from w.decode w.now) r
      ≡ passed form binding
  pub submitted : form_get (codes "totp") form ≡ some (string code)
  pub six_digits : is_six_digits code ≡ true
  pub held : read_session w.decode r.cookies w.now ≡ active session generation
  pub factored : IsFactored w c code token session (second_factor w c r)

pub activated-write_factor :
    (v : Verified) (o : _) → activated (write_factor v o) ≡ some v.access_token
activated-write_factor v (ok cookies) = refl
activated-write_factor v (err e) = refl
