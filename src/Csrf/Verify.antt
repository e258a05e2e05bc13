-- ===== src/Csrf/Verify.antt =====
-- Which proofs verifyCsrfToken of src/lib/security/csrf.ts accepts.
use evirion_engineering_memo.Prelude.{
  ℕ, ◌+◌, ◌<◌, ◌≡◌, refl, ◌≢◌, inl, inr, true, false, [], ◌∷◌, ◌++◌, none, some, Option, arith,
  Text, text_eq, text_eq_iff, text_eq_self, split_last, split_last-append, split_last_sound, Lacks,
  leb, if◌then◌else◌, Option-cases, Bool-cases, ap, ◌∙◌, sym,
}
use evirion_engineering_memo.Prelude.Json.{Json, get, get_field}
use evirion_engineering_memo.Csrf.{
  issued_payload, issued_body, Binding, pre_auth, session, valid, invalid, expired,
  binding_mismatch, Payload, Mac, canonical_binding, canonical_json, binding_json, payload_json,
  payload_of, issue_token, verify_token, check_parts, check_payload, template,
}

pub payload_of-payload_json :
    (b : Binding) (n : Text) (iat exp : ℕ)
    → payload_of (some (payload_json (record { b = binding_json b; n = n; iat = iat; exp = exp })))
      ≡ some (record { b = binding_json b; n = n; iat = iat; exp = exp })
unfolding payload_of payload_json get_field text_eq binding_json
payload_of-payload_json (pre_auth t e g) n iat exp = refl
payload_of-payload_json (session s) n iat exp = refl

pub canonical_json-binding_json :
    (b : Binding) → canonical_json (binding_json b) ≡ canonical_binding b
unfolding canonical_json binding_json canonical_binding get get_field text_eq template
canonical_json-binding_json (pre_auth t e g) = refl
canonical_json-binding_json (session s) = refl

-- What makes a proof good at a time.
pub record IsProof (mac : Mac) (decode : Text → Option Json) (token : Text) (expected : Binding)
    (now : ℕ) (b : Json) : Type 0 where
  pub body : Text
  pub signature : Text
  pub payload : Payload
  pub parts : token ≡ body ++ b'.' ∷ signature
  pub signed : mac.verify signature body ≡ some true
  pub parsed : payload_of (decode body) ≡ some payload
  pub carried : payload.b ≡ b
  pub live : now < payload.exp
  pub bound : canonical_json b ≡ canonical_binding expected

check_payload_sound :
    (expected : Text) (now : ℕ) (o : Option Payload) {b : Json}
    → check_payload expected now o ≡ valid b
    → (p : Payload) × (o ≡ some p) × (p.b ≡ b) × (now < p.exp) × (canonical_json b ≡ expected)
check_payload_sound expected now none h = cc
check_payload_sound expected now (some p) {b} h = (
  p,
  refl,
  ground (arith, text_eq_iff (canonical_json p.b) expected),
  ground (arith, text_eq_iff (canonical_json p.b) expected),
  ground (arith, text_eq_iff (canonical_json p.b) expected),
)

check_parts_sound :
    (mac : Mac) (decode : Text → Option Json) (token : Text) (expected : Binding) (now : ℕ)
    (b : Json) (o : Option (Text × Text))
    → split_last b'.' token ≡ o
    → check_parts mac decode (canonical_binding expected) now o ≡ valid b
    → IsProof mac decode token expected now b
check_parts_sound mac decode token expected now b none e h = absurd (cc)
check_parts_sound mac decode token expected now b (some ([], signature)) e h = absurd (cc)
check_parts_sound mac decode token expected now b (some (c ∷ body, signature)) e h =
    elim (Option-cases (mac.verify signature (c ∷ body))) [
      | inl k ↦ absurd (cc (rw k at h))
      | inr (false, k) ↦ absurd (cc (rw k at h))
      | inr (true, k) ↦
          let (p, parsed, carried, live, bound) =
            check_payload_sound (canonical_binding expected) now (payload_of (decode (c ∷ body)))
              (rw k at h) in
          record {
            body = c ∷ body;
            signature = signature;
            payload = p;
            parts = split_last_sound b'.' token (c ∷ body) signature e;
            signed = k;
            parsed = parsed;
            carried = carried;
            live = live;
            bound = bound;
          }
    ]

-- A proof that is accepted was submitted twice, in the cookie and in the form or header, as the same
-- text; its signature verifies over its body; its payload is well formed and has not expired; and the
-- binding that the payload carries has the canonical form of the expected one.
pub verify_token-IsProof :
    (mac : Mac) (decode : Text → Option Json) (cookie submitted : Option Text) (expected : Binding)
    (now : ℕ) (b : Json)
    → verify_token mac decode cookie submitted expected now ≡ valid b
    → (token : Text) × (cookie ≡ some token)
      × (submitted ≡ some token)
      × IsProof mac decode token expected now b
unfolding verify_token
verify_token-IsProof mac decode (some (c ∷ cookie)) (some (d ∷ submitted)) expected now b h =
    elim (Bool-cases (text_eq (c ∷ cookie) (d ∷ submitted))) [
      | inr other ↦ absurd (cc (rw other at h))
      | inl same ↦ (
        c ∷ cookie,
        refl,
        ap some (sym ((text_eq_iff (c ∷ cookie) (d ∷ submitted)).0 same)),
        check_parts_sound mac decode (c ∷ cookie) expected now b _ refl (rw same at h),
      )
    ]
verify_token-IsProof mac decode none submitted expected now b h = ground arith
verify_token-IsProof mac decode (some []) submitted expected now b h = ground arith
verify_token-IsProof mac decode (some (c ∷ cookie)) none expected now b h = ground arith
verify_token-IsProof mac decode (some (c ∷ cookie)) (some []) expected now b h = ground arith

verify_token_parts :
    (mac : Mac) (decode : Text → Option Json) (expected : Binding) (now : ℕ) (body signature : Text)
    → body ≢ []
    → Lacks b'.' signature
    → mac.verify signature body ≡ some true
    → verify_token mac decode
        (some (body ++ b'.' ∷ signature))
        (some (body ++ b'.' ∷ signature))
        expected
        now
      ≡ check_payload (canonical_binding expected) now (payload_of (decode body))
unfolding verify_token
verify_token_parts mac decode expected now [] signature n lacks signed = absurd (n refl)
verify_token_parts mac decode expected now (c ∷ body) signature n lacks signed =
    rw (text_eq_self (c ∷ (body ++ b'.' ∷ signature)))
      (rw (split_last-append b'.' (c ∷ body) signature lacks) (rw signed refl))

-- A proof that was issued is accepted as exactly itself until its lifetime ends and is expired from
-- then on, where the same binding is expected; where another is expected whose canonical form
-- differs, it is refused as a binding mismatch. This for a MAC that verifies its own signatures,
-- writes them without a dot, and a decoding that undoes the encoding of the payload.
pub verify_token-issue_token :
    (mac : Mac) (encode : Json → Text) (decode : Text → Option Json) (nonce : Text)
    (b expected : Binding) (issued_at lifetime now : ℕ)
    → decode (issued_body encode nonce b issued_at lifetime)
      ≡ some (payload_json (issued_payload nonce b issued_at lifetime))
    → issued_body encode nonce b issued_at lifetime ≢ []
    → mac.verify
        (mac.sign (issued_body encode nonce b issued_at lifetime))
        (issued_body encode nonce b issued_at lifetime)
      ≡ some true
    → Lacks b'.' (mac.sign (issued_body encode nonce b issued_at lifetime))
    → verify_token mac decode
        (some (issue_token mac encode nonce b issued_at lifetime))
        (some (issue_token mac encode nonce b issued_at lifetime))
        expected
        now
      ≡ (if leb (issued_at + lifetime) now
          then invalid expired
          else if text_eq (canonical_binding b) (canonical_binding expected)
          then valid (binding_json b)
          else invalid binding_mismatch)
unfolding issue_token
verify_token-issue_token mac encode decode nonce b expected issued_at lifetime now codec n signed
      lacks =
    verify_token_parts mac decode expected now _ _ n lacks signed
    ∙ (rw codec (
        rw (payload_of-payload_json b nonce issued_at (issued_at + lifetime))
          (rw (canonical_json-binding_json b) refl)))
