-- ===== src/Proxy/Laws.antt =====
-- What src/proxy.ts lets go on.
use evirion_engineering_memo.Prelude.{
  ◌≡◌, ◌≤◌, refl, sym, subst, ap, ◌∙◌, ◌⊎◌, inl, inr, true, false, List, [], Option, none, some,
  Bool-cases, Result, ok, err, ◌+◌, leb, leb→le, Text, codes, text_eq_iff, starts_with,
}
use evirion_engineering_memo.Prelude.Json.{Json, null, boolean, number, text, array, object}
use evirion_engineering_memo.Cookies.{CookieInstruction, BudgetError}
use evirion_engineering_memo.Cookies.Parse.{lookup}
use evirion_engineering_memo.Session.{
  StoredSession, ReadOutcome, active, anonymous, refused, read_session, write_session,
  access_token_needs_refresh,
}
use evirion_engineering_memo.Policy.{absolute_session_seconds}
use evirion_engineering_memo.Csrf.{issue_token, session, csrf_bound_session_id}
use evirion_engineering_memo.Guard.{session_csrf_cookie}
use evirion_engineering_memo.Proxy.{
  Edge, Visit, Issued, forwarded, Renewal, kept, renewed, unwritten, renewed_session,
  written_renewal, renewal_of, renew_if_due, is_bound, session_proof, renewal_cookies, land, visit,
  proxy,
}

-- A session that a renewal writes: the same session until the same end, under the tokens that the provider
-- issued for its refresh token.
pub record IsRenewal (e : Edge) (s after : StoredSession) (instructions : List CookieInstruction)
    : Type 0 where
  pub due : s.access_token_expires_at ≤ e.now + 60
  pub issued : Issued
  pub exchanged : e.refresh s.refresh_token ≡ some issued
  pub access : after.access_token ≡ issued.access_token
  pub refreshed : after.refresh_token ≡ issued.refresh_token
  pub expires : after.access_token_expires_at ≡ issued.access_token_expires_at
  pub same : after.provider_session_id ≡ s.provider_session_id
  pub end : after.absolute_expires_at ≡ s.absolute_expires_at
  pub written : write_session e.encode_session e.generation after e.now ≡ ok instructions

-- The proof that a page behind the proxy gets for its session: a new one, or the one that is carried
-- and names this session.
abbrev pub IsProofFor : Edge → Visit → StoredSession → Option Text → Type 0
IsProofFor e v s proof =
    (proof
      ≡ some (
          issue_token e.mac e.encode e.proof_nonce (session s.provider_session_id) e.now
            absolute_session_seconds))
    ⊎ ((proof ≡ none)
        × (csrf_bound_session_id e.decode (lookup session_csrf_cookie v.cookies)
            ≡ some (text s.provider_session_id)))

renewed_inv :
    {s t : StoredSession} {is js : List CookieInstruction}
    → renewed s is ≡ renewed t js
    → (s ≡ t) × (is ≡ js)
renewed_inv h = (cc, cc)

written_renewal-IsRenewal :
    (e : Edge) (s : StoredSession) (issued : Issued)
    (o : Result BudgetError (List CookieInstruction)) {after : StoredSession}
    {instructions : List CookieInstruction}
    → s.access_token_expires_at ≤ e.now + 60
    → e.refresh s.refresh_token ≡ some issued
    → write_session e.encode_session e.generation (renewed_session s issued) e.now ≡ o
    → written_renewal (renewed_session s issued) o ≡ renewed after instructions
    → IsRenewal e s after instructions
written_renewal-IsRenewal e s issued (err x) due k w h = absurd (cc)
written_renewal-IsRenewal e s issued (ok is) {after} {instructions} due k w h =
    let (same, equal) = renewed_inv h in
    record {
      due = due;
      issued = issued;
      exchanged = k;
      access = ap (λ x. x.access_token) (sym same);
      refreshed = ap (λ x. x.refresh_token) (sym same);
      expires = ap (λ x. x.access_token_expires_at) (sym same);
      same = ap (λ x. x.provider_session_id) (sym same);
      end = ap (λ x. x.absolute_expires_at) (sym same);
      written =
          subst (λ x. write_session e.encode_session e.generation x e.now ≡ ok instructions) same
            (w ∙ ap ok equal);
    }

renewal_of-IsRenewal :
    (e : Edge) (s : StoredSession) (o : Option Issued) {after : StoredSession}
    {instructions : List CookieInstruction}
    → s.access_token_expires_at ≤ e.now + 60
    → e.refresh s.refresh_token ≡ o
    → renewal_of e s o ≡ renewed after instructions
    → IsRenewal e s after instructions
renewal_of-IsRenewal e s none due k h = absurd (cc)
renewal_of-IsRenewal e s (some issued) due k h = written_renewal-IsRenewal e s issued _ due k refl h

renew_if_due-IsRenewal :
    (e : Edge) (carried : ReadOutcome) {after : StoredSession}
    {instructions : List CookieInstruction}
    → renew_if_due e carried ≡ renewed after instructions
    → (s : StoredSession) × (generation : Text) × (carried ≡ active s generation)
      × IsRenewal e s after instructions
unfolding renew_if_due access_token_needs_refresh
renew_if_due-IsRenewal e anonymous h = absurd (cc)
renew_if_due-IsRenewal e (refused reason clear) h = absurd (cc)
renew_if_due-IsRenewal e (active s generation) h =
    elim (Bool-cases (leb s.access_token_expires_at (e.now + 60))) [
      | inr fresh ↦ absurd (cc (rw fresh at h))
      | inl due ↦
          (s, generation, refl, renewal_of-IsRenewal e s _ (leb→le _ _ due) refl (rw due at h))
    ]

is_bound_inv :
    (e : Edge) (v : Visit) (s : StoredSession) (o : Option Json)
    → is_bound e v s o ≡ true
    → o ≡ some (text s.provider_session_id)
is_bound_inv e v s none h = absurd (cc)
is_bound_inv e v s (some null) h = absurd (cc)
is_bound_inv e v s (some (boolean b)) h = absurd (cc)
is_bound_inv e v s (some (number n)) h = absurd (cc)
is_bound_inv e v s (some (text t)) h =
    ap (λ x. some (text x)) ((text_eq_iff t s.provider_session_id).0 h)
is_bound_inv e v s (some (array es)) h = absurd (cc)
is_bound_inv e v s (some (object fs)) h = absurd (cc)

session_proof-IsProofFor :
    (e : Edge) (v : Visit) (s : StoredSession)
    → starts_with (codes "/api/") v.path ≡ false
    → IsProofFor e v s (session_proof e v (some s))
session_proof-IsProofFor e v s page =
    elim (Bool-cases
      (is_bound e v s (csrf_bound_session_id e.decode (lookup session_csrf_cookie v.cookies)))) [
        | inl bound ↦ inr (rw (page, bound) refl, is_bound_inv e v s _ bound)
        | inr other ↦ inl (rw (page, other) refl)
      ]

forwarded_inv :
    {a b : Option Text} {is js : List CookieInstruction} {x y : Option Text}
    {p q : Option (Text × Text)}
    → forwarded a is x p ≡ forwarded b js y q
    → (is ≡ js) × (x ≡ y)
forwarded_inv h = (cc, cc)

active_inv : {s t : StoredSession} {g h : Text} → active s g ≡ active t h → s ≡ t
active_inv e = cc

land_inv :
    (e : Edge) (v : Visit) (renewal : Renewal) (s : StoredSession) (o : Option Text)
    {header : Option Text} {cookies : List CookieInstruction} {proof : Option Text}
    {pair : Option (Text × Text)}
    → land e v renewal (some s) o ≡ forwarded header cookies proof pair
    → (renewal_cookies renewal ≡ cookies) × (session_proof e v (some s) ≡ proof)
land_inv e v renewal s none h = forwarded_inv h
land_inv e v renewal s (some location) h = absurd (cc)

visit_inv :
    (e : Edge) (v : Visit) (s : StoredSession) (generation : Text) (renewal : Renewal)
    {header : Option Text} {cookies : List CookieInstruction} {proof : Option Text}
    {pair : Option (Text × Text)}
    → starts_with (codes "/api/") v.path ≡ false
    → renew_if_due e (active s generation) ≡ renewal
    → visit e v (active s generation) renewal ≡ forwarded header cookies proof pair
    → (after : StoredSession) × (((after ≡ s) × (cookies ≡ [])) ⊎ IsRenewal e s after cookies)
      × IsProofFor e v after proof
visit_inv e v s generation unwritten page due h = absurd (cc)
visit_inv e v s generation kept page due h =
    let (none_written, proof) = land_inv e v kept s _ h in
    (
      s,
      inl (refl, sym none_written),
      subst (IsProofFor e v s) proof (session_proof-IsProofFor e v s page),
    )
visit_inv e v s generation (renewed after instructions) page due h =
    let (written, proof) = land_inv e v (renewed after instructions) after _ h in
    let (before, g, carried, renewal) = renew_if_due-IsRenewal e (active s generation) due in
    (
      after,
      inr (
          subst (IsRenewal e s after) written
            (subst (λ x. IsRenewal e x after instructions) (sym (active_inv carried)) renewal)),
      subst (IsProofFor e v after) proof (session_proof-IsProofFor e v after page),
    )

-- A page request of a live session that goes on sets no session cookie and keeps the session, or its
-- access token had a minute left at most and the cookies that it sets are those of the same provider
-- session, until the same absolute end, under the tokens and the expiry that the provider issued for its
-- refresh token. The page's proof is one for that session: a
-- new one is set, or the carried one already names it.
pub proxy-forwarded :
    (e : Edge) (v : Visit) (s : StoredSession) (generation : Text) (header : Option Text)
    (cookies : List CookieInstruction) (proof : Option Text) (pair : Option (Text × Text))
    → read_session e.decode v.cookies e.now ≡ active s generation
    → starts_with (codes "/api/") v.path ≡ false
    → proxy e v ≡ forwarded header cookies proof pair
    → (after : StoredSession) × (((after ≡ s) × (cookies ≡ [])) ⊎ IsRenewal e s after cookies)
      × IsProofFor e v after proof
unfolding proxy
proxy-forwarded e v s generation header cookies proof pair held page h =
    visit_inv e v s generation _ page refl (rw held at h)
