-- ===== src/Ceremony/Replays.antt =====
-- What the replayed request of src/server/actions/reauthentication-replay.ts passes and carries.
use evirion_engineering_memo.Prelude.{
  ℕ, ◌+◌, ◌≡◌, ◌≢◌, inl, inr, refl, sym, ap, ◌∙◌, true, false, List, [], ◌∷◌, ◌++◌, some,
  Bool-cases, Text, codes, text_eq, text_eq_self, includes, ltb, leb, Lacks, arith, leb→le,
  if◌then◌else◌,
}
use evirion_engineering_memo.Prelude.Json.{Json}
use evirion_engineering_memo.Policy.{absolute_session_seconds}
use evirion_engineering_memo.Csrf.{
  Mac, Binding, session, valid as proven, canonical_binding, binding_json, payload_json,
  issued_payload, issued_body, issue_token, verify_token,
}
use evirion_engineering_memo.Csrf.Verify.{verify_token-issue_token}
use evirion_engineering_memo.Session.{StoredSession, active, read_session}
use evirion_engineering_memo.Ceremony.Carried.{as_form, form_get-set_field, lookup-set_field-filled}
use evirion_engineering_memo.Origin.{
  origin, allowed, rejected, untrusted_forwarding_header, is_space, trim, trim_start, trim_end,
  before, to_lower_case, to_upper_case, state_changing_methods, allowed_modes,
  allowed_content_types, forwarding_headers, base_content_type, derive_effective_origin, origin_of,
  assert_mutation_origin,
}
use evirion_engineering_memo.Origin.Laws.{IsSameOrigin, assert_mutation_origin_iff}
use evirion_engineering_memo.Guard.{
  mutation_request, passed, guard_mutation, session_binding_from, session_csrf_cookie,
}
use evirion_engineering_memo.Reauth.State.{set_field}
use evirion_engineering_memo.Reauth.{switch}
use evirion_engineering_memo.Commands.{World}
use evirion_engineering_memo.Ceremony.{
  Ceremony, replay_headers, replay_request, filled_entries, proof_for,
}

origin_of-filled :
    (protocol host : Text)
    → host ≢ []
    → origin_of protocol (some host) ≡ origin (protocol ++ (codes "://" ++ host))
origin_of-filled protocol [] h = absurd (h refl)
origin_of-filled protocol (c ∷ host) h = refl

-- What the headers of a replay say, behind a trusted proxy.
replay_request-IsSameOrigin :
    (w : World) (c : Ceremony) (jar fields : List (Text × Text)) (token : Text)
    → w.environment.canonical_origin ≡ codes "https://" ++ c.host_of w.environment.canonical_origin
    → c.host_of w.environment.canonical_origin ≢ []
    → ltb 0 w.environment.trusted_proxy_hops ≡ true
    → IsSameOrigin
        (mutation_request w.environment (replay_request w c jar fields token))
        w.environment.canonical_origin
unfolding derive_effective_origin replay_headers switch text_eq includes to_upper_case
    state_changing_methods allowed_modes allowed_content_types base_content_type before trim
    trim_start trim_end is_space to_lower_case
replay_request-IsSameOrigin w c jar fields token whole filled behind = record {
  changes_state = refl;
  reached = rw behind (
      origin_of-filled (codes "https") (c.host_of w.environment.canonical_origin) filled
      ∙ ap origin (sym whole));
  sent_from = refl;
  site = refl;
  mode = inr (codes "navigate", refl, refl);
  content_type = (codes "application/x-www-form-urlencoded", refl, refl);
}

replay_request-direct :
    (w : World) (c : Ceremony) (jar fields : List (Text × Text)) (token : Text)
    → ltb 0 w.environment.trusted_proxy_hops ≡ false
    → assert_mutation_origin
        (mutation_request w.environment (replay_request w c jar fields token))
        w.environment.canonical_origin
      ≡ rejected untrusted_forwarding_header
unfolding assert_mutation_origin derive_effective_origin replay_headers switch text_eq includes
    to_upper_case state_changing_methods forwarding_headers
replay_request-direct w c jar fields token direct = rw direct refl

-- The replayed request clears the origin boundary behind at least one trusted proxy, and with none it is
-- refused for the forwarding headers that it carries itself. This where the canonical origin is `https`
-- with its host.
pub replay_request-origin :
    (w : World) (c : Ceremony) (jar fields : List (Text × Text)) (token : Text)
    → w.environment.canonical_origin ≡ codes "https://" ++ c.host_of w.environment.canonical_origin
    → c.host_of w.environment.canonical_origin ≢ []
    → assert_mutation_origin
        (mutation_request w.environment (replay_request w c jar fields token))
        w.environment.canonical_origin
      ≡ (if ltb 0 w.environment.trusted_proxy_hops
          then allowed w.environment.canonical_origin
          else rejected untrusted_forwarding_header)
replay_request-origin w c jar fields token whole filled =
    elim (Bool-cases (ltb 0 w.environment.trusted_proxy_hops)) [
      | inr direct ↦ replay_request-direct w c jar fields token direct ∙ rw direct refl
      | inl behind ↦
          (assert_mutation_origin_iff
              (mutation_request w.environment (replay_request w c jar fields token))
              w.environment.canonical_origin w.environment.canonical_origin).1
            (replay_request-IsSameOrigin w c jar fields token whole filled behind, refl)
          ∙ rw behind refl
    ]

lifetime-open : (now : ℕ) → leb (now + absolute_session_seconds) now ≡ false
lifetime-open now = elim (Bool-cases (leb (now + absolute_session_seconds) now)) [
  | inr e ↦ e
  | inl e ↦ let h = leb→le (now + absolute_session_seconds) now e in absurd (omega arith)
]

append-filled : (s : Text) (x : ℕ) (t : Text) → s ++ x ∷ t ≢ []
append-filled [] x t h = absurd (cc)
append-filled (y ∷ s) x t h = absurd (cc)

issue_token-filled :
    (mac : Mac) (encode : Json → Text) (nonce : Text) (b : Binding) (now lifetime : ℕ)
    → issue_token mac encode nonce b now lifetime ≢ []
unfolding issue_token
issue_token-filled mac encode nonce b now lifetime = append-filled _ _ _

-- The proof that a replay carries verifies against the session that it was issued for.
module _ (w : World) (c : Ceremony) (s : StoredSession)
    (decoded : w.decode (
        issued_body w.encode c.nonce (session s.provider_session_id) w.now absolute_session_seconds)
      ≡ some (
          payload_json (
            issued_payload c.nonce (session s.provider_session_id) w.now absolute_session_seconds)))
    (filled : issued_body w.encode c.nonce
        (session s.provider_session_id)
        w.now
        absolute_session_seconds
      ≢ [])
    (signed : w.environment.mac.verify
        (w.environment.mac.sign (
          issued_body w.encode c.nonce
            (session s.provider_session_id)
            w.now
            absolute_session_seconds))
        (issued_body w.encode c.nonce
          (session s.provider_session_id)
          w.now
          absolute_session_seconds)
      ≡ some true)
    (lacks : Lacks b'.' (
      w.environment.mac.sign (
        issued_body w.encode c.nonce
          (session s.provider_session_id)
          w.now
          absolute_session_seconds))) where
  proof_for-verifies :
      verify_token w.environment.mac w.decode
        (some (proof_for w c s))
        (some (proof_for w c s))
        (session s.provider_session_id)
        w.now
      ≡ proven (binding_json (session s.provider_session_id))
  proof_for-verifies =
      verify_token-issue_token w.environment.mac w.encode w.decode c.nonce
        (session s.provider_session_id) (session s.provider_session_id) w.now
        absolute_session_seconds w.now decoded filled signed lacks
      ∙ rw (lifetime-open w.now, text_eq_self (canonical_binding (session s.provider_session_id)))
          refl

  -- The request that replays a mutation passes the guard of the mutation's route, with the fields of the
  -- mutation and the new proof as its form. This behind a trusted proxy, where the canonical origin is
  -- `https` with its host, the Cookie header and the body carry over what they are given, the session
  -- reads from the cookies that are sent again, and the MAC and the encoding of a proof are as its round
  -- trip asks.
  pub replay_request-passed :
      (jar fields : List (Text × Text)) (generation : Text)
      → w.environment.canonical_origin
        ≡ codes "https://" ++ c.host_of w.environment.canonical_origin
      → c.host_of w.environment.canonical_origin ≢ []
      → ltb 0 w.environment.trusted_proxy_hops ≡ true
      → c.resend (filled_entries (set_field session_csrf_cookie (proof_for w c s) jar))
        ≡ filled_entries (set_field session_csrf_cookie (proof_for w c s) jar)
      → read_session w.decode
          (filled_entries (set_field session_csrf_cookie (proof_for w c s) jar))
          w.now
        ≡ active s generation
      → c.read_back (set_field (codes "csrfToken") (proof_for w c s) fields)
        ≡ some (as_form (set_field (codes "csrfToken") (proof_for w c s) fields))
      → guard_mutation w.decode w.environment w.now
          (session_binding_from w.decode w.now)
          (replay_request w c jar fields (proof_for w c s))
        ≡ passed
            (as_form (set_field (codes "csrfToken") (proof_for w c s) fields))
            (binding_json (session s.provider_session_id))
  unfolding guard_mutation session_binding_from
  replay_request-passed jar fields generation whole named behind resent held body =
      let clear =
        (assert_mutation_origin_iff
            (mutation_request w.environment (replay_request w c jar fields (proof_for w c s)))
            w.environment.canonical_origin w.environment.canonical_origin).1
          (replay_request-IsSameOrigin w c jar fields (proof_for w c s) whole named behind, refl) in
      let cookie = lookup-set_field-filled session_csrf_cookie (proof_for w c s) jar (
        issue_token-filled w.environment.mac w.encode c.nonce (session s.provider_session_id) w.now
          absolute_session_seconds) in
      let submitted = form_get-set_field (codes "csrfToken") (proof_for w c s) fields in
      rw (clear, resent, held, body, cookie, submitted, proof_for-verifies) refl
