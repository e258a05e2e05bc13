-- ===== src/Identity/Laws.antt =====
-- Exactly which identities src/lib/auth/identity-admission.ts admits.
use evirion_engineering_memo.Prelude.{
  ◌≡◌, ◌≢◌, ◌↔◌, refl, inl, inr, subst, sym, ap, Bool, true, false, ◌||◌, not, List, [], ◌∷◌, Text,
  codes, text_eq, text_eq_iff, text_eq_self, includes, All, Bool-cases, if◌then◌else◌,
}
use evirion_engineering_memo.Identity.{
  VerifiedUser, AdmissionResult, admitted, denied, anonymous_identity, unverified_email,
  missing_session_id, allowed_providers, is_empty, without, unique, methods_allowed, admit_methods,
  admit_providers, admit_verified_identity,
}

without-All : (P : Text → Type 0) (x : Text) (ys : List Text) → All P ys → All P (without x ys)
unfolding without
without-All P x [] h = tt
without-All P x (y ∷ ys) (p, h) = elim (Bool-cases (text_eq y x)) [
  | inl same ↦ rw same (without-All P x ys h)
  | inr other ↦ rw other (p, without-All P x ys h)
]

All-without :
    (P : Text → Type 0) (x : Text) (ys : List Text) → P x → All P (without x ys) → All P ys
unfolding without
All-without P x [] p h = tt
All-without P x (y ∷ ys) p h = elim (Bool-cases (text_eq y x)) [
  | inl same ↦ (subst P (sym ((text_eq_iff y x).0 same)) p, All-without P x ys p (rw same at h))
  | inr other ↦ let (q, k) = (rw other at h) in (q, All-without P x ys p k)
]

unique-All : (P : Text → Type 0) (xs : List Text) → All P xs → All P (unique xs)
unfolding unique
unique-All P [] h = tt
unique-All P (x ∷ xs) (p, h) = (p, without-All P x (unique xs) (unique-All P xs h))

All-unique : (P : Text → Type 0) (xs : List Text) → All P (unique xs) → All P xs
unfolding unique
All-unique P [] h = tt
All-unique P (x ∷ xs) (p, h) = (p, All-unique P xs (All-without P x (unique xs) p h))

without-eq-nil : (x : Text) (ys : List Text) → All (λ y. y ≡ x) ys → without x ys ≡ []
unfolding without
without-eq-nil x [] h = refl
without-eq-nil x (y ∷ ys) (e, h) = rw (e, text_eq_self x) (without-eq-nil x ys h)

unique-same : (e : Text) (xs : List Text) → All (λ y. y ≡ e) xs → xs ≢ [] → unique xs ≡ e ∷ []
unfolding unique
unique-same e [] h n = absurd (n refl)
unique-same e (x ∷ xs) (same, h) n =
    rw (same, without-eq-nil e (unique xs) (unique-All (λ y. y ≡ e) xs h)) refl

includes_one : (p : Text) → includes allowed_providers p ≡ true → p ≡ codes "email"
unfolding includes allowed_providers
includes_one p h = elim (Bool-cases (text_eq (codes "email") p)) [
  | inl same ↦ sym ((text_eq_iff (codes "email") p).0 same)
  | inr other ↦ absurd (cc (rw other at h))
]

admit_methods_iff :
    (amr : List Text) → (admit_methods amr ≡ admitted) ↔ (methods_allowed amr ≡ true)
admit_methods_iff amr = elim (Bool-cases (methods_allowed amr)) [
  | inl good ↦ (λ h. good, λ h. rw good refl)
  | inr bad ↦ (λ h. absurd (cc (rw bad at h)), λ h. absurd (cc))
]

admit_providers_inv :
    (amr ps : List Text)
    → admit_providers amr ps ≡ admitted
    → (ps ≡ codes "email" ∷ []) × (methods_allowed amr ≡ true)
admit_providers_inv amr [] h = absurd (cc)
admit_providers_inv amr (p ∷ q ∷ ps) h = absurd (cc)
admit_providers_inv amr (p ∷ []) h = elim (Bool-cases (includes allowed_providers p)) [
  | inl listed ↦
      (ap (λ t. t ∷ []) (includes_one p listed), (admit_methods_iff amr).0 (rw listed at h))
  | inr other ↦ absurd (cc (rw other at h))
]

email_allowed : includes allowed_providers (codes "email") ≡ true
unfolding includes allowed_providers text_eq
email_allowed = refl

-- An identity that the Alpha contract admits.
pub record IsAdmissible (user : VerifiedUser) : Type 0 where
  pub named : user.is_anonymous ≡ false
  pub verified : user.email_verified ≡ true
  pub addressed : is_empty user.email ≡ false
  pub in_session : is_empty user.session_id ≡ false
  pub some_provider : user.providers ≢ []
  pub only_email : All (λ p. p ≡ codes "email") user.providers
  pub methods : methods_allowed user.amr ≡ true

nonempty : (xs : List Text) (e : Text) → unique xs ≡ e ∷ [] → xs ≢ []
unfolding unique
nonempty [] e h = absurd (cc)
nonempty (x ∷ xs) e h = λ k. absurd (cc)

admit_inv :
    (a v e s : Bool) (r : AdmissionResult)
    → (if a
        then denied anonymous_identity
        else if not v || e
        then denied unverified_email
        else if s
        then denied missing_session_id
        else r)
      ≡ admitted
    → (a ≡ false) × (v ≡ true) × (e ≡ false) × (s ≡ false) × (r ≡ admitted)
admit_inv true v e s r h = absurd (cc)
admit_inv false false e s r h = absurd (cc)
admit_inv false true true s r h = absurd (cc)
admit_inv false true false true r h = absurd (cc)
admit_inv false true false false r h = (refl, refl, refl, refl, h)

-- An identity is admitted exactly if it is not anonymous, has a verified address and a session, and
-- every provider that it reports, one at least, is the email provider, and every method that is not
-- empty is an allowed one.
pub admit_verified_identity_iff :
    (user : VerifiedUser) → (admit_verified_identity user ≡ admitted) ↔ IsAdmissible user
unfolding admit_verified_identity
admit_verified_identity_iff user = (
  λ h.
      let (named, verified, addressed, in_session, rest) = admit_inv _ _ _ _ _ h in
      let (one, methods) = admit_providers_inv user.amr (unique user.providers) rest in
      record {
        named = named;
        verified = verified;
        addressed = addressed;
        in_session = in_session;
        some_provider = nonempty user.providers (codes "email") one;
        only_email =
            All-unique (λ p. p ≡ codes "email") user.providers
              (subst (All (λ p. p ≡ codes "email")) (sym one) (refl, tt));
        methods = methods;
      },
  λ k.
      rw
        (
          k.named,
          k.verified,
          k.addressed,
          k.in_session,
          unique-same (codes "email") user.providers k.only_email k.some_provider,
          email_allowed,
        )
        ((admit_methods_iff user.amr).1 k.methods),
)
