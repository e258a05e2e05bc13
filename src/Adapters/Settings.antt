-- ===== src/Adapters/Settings.antt =====
-- The commands of src/server/adapters/settings.ts.
use evirion_engineering_memo.Prelude.{ℕ, Bool, List, [], ◌∷◌, Option, some, Text, codes}
use evirion_engineering_memo.Prelude.Json.{Json, text, number, boolean, object, no_fields, field}
use evirion_engineering_memo.Commands.{Scope}
use evirion_engineering_memo.Adapters.{
  Call, Part, literal, identifier, organization_path, command, spread, optional_text,
}

-- createOrganizationInvitation
abbrev pub create_organization_invitation : Scope → Text → Text → Text → Option Call
create_organization_invitation scope key email role =
    command scope (codes "POST") (organization_path scope (literal (codes "/invitations") ∷ [])) key
      (some
        (object (field (codes "email") (text email) (field (codes "role") (text role) no_fields))))

abbrev invitation_path : Scope → Text → Text → List Part
invitation_path scope id suffix =
    organization_path scope (literal (codes "/invitations/") ∷ identifier id ∷ literal suffix ∷ [])

abbrev version_body : ℕ → Json
version_body version = object (field (codes "expectedVersion") (number version) no_fields)

-- resendOrganizationInvitation
abbrev pub resend_organization_invitation : Scope → Text → Text → ℕ → Option Call
resend_organization_invitation scope key id version =
    command scope (codes "POST") (invitation_path scope id (codes "/resend")) key
      (some (version_body version))

-- revokeOrganizationInvitation
abbrev pub revoke_organization_invitation : Scope → Text → Text → ℕ → Option Call
revoke_organization_invitation scope key id version =
    command scope (codes "POST") (invitation_path scope id (codes "/revoke")) key
      (some (version_body version))

-- updateOrganizationMembership, with a role
abbrev pub update_organization_membership : Scope → Text → Text → Text → Text → ℕ → Option Call
update_organization_membership scope key id action role version =
    command scope (codes "PATCH")
      (organization_path scope (literal (codes "/members/") ∷ identifier id ∷ [])) key
      (some (
        object (
          field (codes "action") (text action) (
            field (codes "expectedVersion") (number version)
              (field (codes "role") (text role) no_fields)))))

-- requestOrganizationOffboarding
abbrev pub request_organization_offboarding : Scope → Text → Bool → Option Text → Option Call
request_organization_offboarding scope key confirmation_accepted reason =
    command scope (codes "POST") (organization_path scope (literal (codes "/offboarding") ∷ [])) key
      (some (
        object (
          field (codes "confirmationAccepted") (boolean confirmation_accepted)
            (spread (codes "reason") (optional_text reason) no_fields))))
