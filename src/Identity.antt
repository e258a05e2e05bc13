-- ===== src/Identity.antt =====
-- src/lib/auth/identity-admission.ts: which verified identities may hold a session.
pub mod Laws
use evirion_engineering_memo.Prelude.{
  Bool, true, false, ◌&&◌, ◌||◌, not, List, [], ◌∷◌, Text, codes, text_eq, includes, all,
  if◌then◌else◌,
}

pub data Aal : Type 0 where
  aal1 aal2 : Aal

-- The members of VerifiedUser that admission reads.
pub record VerifiedUser : Type 0 where
  pub email : Text
  pub email_verified : Bool
  pub is_anonymous : Bool
  pub amr : List Text
  pub providers : List Text
  pub session_id : Text
  pub current_aal : Aal
  pub next_aal : Aal

unfoldable pub allowed_providers : List Text
allowed_providers = codes "email" ∷ []

unfoldable pub allowed_amr_methods : List Text
allowed_amr_methods = codes "otp" ∷ codes "email" ∷ codes "mfa" ∷ codes "totp" ∷ []

pub data AdmissionRejection : Type 0 where
  anonymous_identity unverified_email unsupported_provider : AdmissionRejection
  unsupported_amr linked_identity missing_session_id : AdmissionRejection

pub data AdmissionResult : Type 0 where
  admitted : AdmissionResult
  denied : AdmissionRejection → AdmissionResult

abbrev pub is_empty : Text → Bool
is_empty [] = true
is_empty (c ∷ s) = false

unfoldable pub without : Text → List Text → List Text
without x [] = []
without x (y ∷ ys) = let rest = without x ys in if text_eq y x then rest else y ∷ rest

-- `[...new Set(xs)]`
unfoldable pub unique : List Text → List Text
unique [] = []
unique (x ∷ xs) = x ∷ without x (unique xs)

-- `methods.filter((method) => method.length > 0).every(…)`
abbrev pub methods_allowed : List Text → Bool
methods_allowed methods = all (λ m. is_empty m || includes allowed_amr_methods m) methods

abbrev pub admit_methods : List Text → AdmissionResult
admit_methods amr = if methods_allowed amr then admitted else denied unsupported_amr

abbrev pub admit_providers : List Text → List Text → AdmissionResult
admit_providers amr [] = denied unsupported_provider
admit_providers amr (p ∷ q ∷ ps) = denied linked_identity
admit_providers amr (p ∷ []) =
    if includes allowed_providers p then admit_methods amr else denied unsupported_provider

-- admitVerifiedIdentity
unfoldable pub admit_verified_identity : VerifiedUser → AdmissionResult
admit_verified_identity user =
    if user.is_anonymous
    then denied anonymous_identity
    else if not user.email_verified || is_empty user.email
    then denied unverified_email
    else if is_empty user.session_id
    then denied missing_session_id
    else admit_providers user.amr (unique user.providers)

abbrev is_aal2 : Aal → Bool
is_aal2 aal1 = false
is_aal2 aal2 = true

-- satisfiesPrivilegedAal
abbrev pub satisfies_privileged_aal : VerifiedUser → Bool
satisfies_privileged_aal user = is_aal2 user.current_aal && is_aal2 user.next_aal

-- requiresReauthentication
abbrev pub requires_reauthentication : VerifiedUser → Bool
requires_reauthentication user = is_aal2 user.next_aal && not (is_aal2 user.current_aal)
