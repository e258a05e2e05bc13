-- ===== src/Adapters/Repositories.antt =====
-- The entitlement commands of src/server/adapters/repositories.ts, and the catalogue of model profiles.
use evirion_engineering_memo.Prelude.{ℕ, true, List, [], ◌∷◌, Option, none, some, Text, codes}
use evirion_engineering_memo.Prelude.Json.{
  Json, null, text, number, boolean, array, object, Fields, no_fields, field,
}
use evirion_engineering_memo.Commands.{Scope}
use evirion_engineering_memo.Adapters.{
  Call, Part, literal, identifier, organization_path, read, command, checked, spread, optional_text,
  bounded, elements,
}

-- LiveRepositoryConsent, whose scope is fixed
pub record Consent : Type 0 where
  pub allowed_model_profiles : List Text
  pub call_ceiling : ℕ
  pub budget_ceiling_usd : Text
  pub retry_policy : Text
  pub expires_at : Text

-- repositoryPath of the adapter
abbrev pub repository_call_path : Scope → Text → Text → List Part
repository_call_path scope id suffix =
    organization_path scope (literal (codes "/repositories/") ∷ identifier id ∷ literal suffix ∷ [])

abbrev pub version_json : Option ℕ → Json
version_json none = null
version_json (some n) = number n

abbrev pub spread_reason : Option Text → Fields → Fields
spread_reason reason = spread (codes "reason") (optional_text (bounded 500 reason))

-- activateRepositoryEntitlement
abbrev pub activate_repository_entitlement : Scope → Text → Text → Option ℕ → Option Call
activate_repository_entitlement scope id key version =
    command scope (codes "POST") (repository_call_path scope id (codes "/activate")) key (
      some (
        object (
          field (codes "expectedVersion") (version_json version)
            (field (codes "confirmationAccepted") (boolean true) no_fields))))

-- disableRepositoryEntitlement
abbrev pub disable_repository_entitlement : Scope → Text → Text → ℕ → Option Text → Option Call
disable_repository_entitlement scope id key version reason =
    command scope (codes "POST") (repository_call_path scope id (codes "/disable")) key (
      some (
        object (field (codes "expectedVersion") (number version) (spread_reason reason no_fields))))

-- requestRepositoryEntitlementChange
abbrev pub request_repository_entitlement_change :
    Scope → Text → Text → Text → ℕ → Option Text → Option Call
request_repository_entitlement_change scope id key requested version reason = checked requested (
    command scope (codes "POST") (repository_call_path scope id (codes "/request-change")) key (
      some (
        object (
          field (codes "expectedVersion") (number version) (
            field (codes "requestedRepositoryId") (text requested)
              (spread_reason reason no_fields))))))

abbrev pub consent_json : Option Consent → Json
consent_json none = null
consent_json (some c) = object (
    field (codes "scope") (text (codes "LIVE_REPOSITORY")) (
      field (codes "allowedModelProfiles") (array (elements c.allowed_model_profiles)) (
        field (codes "callCeiling") (number c.call_ceiling) (
          field (codes "budgetCeilingUsd") (text c.budget_ceiling_usd) (
            field (codes "retryPolicy") (text c.retry_policy)
              (field (codes "expiresAt") (text c.expires_at) no_fields))))))

abbrev pub policy_body : ℕ → Text → Option Consent → Json
policy_body version mode consent = object (
    field (codes "expectedVersion") (number version)
      (field (codes "mode") (text mode) (field (codes "consent") (consent_json consent) no_fields)))

-- updateRepositoryProcessingPolicy
abbrev pub update_repository_processing_policy :
    Scope → Text → Text → ℕ → Text → Option Consent → Option Call
update_repository_processing_policy scope id key version mode consent =
    command scope (codes "PATCH") (repository_call_path scope id (codes "/processing-policy")) key
      (some (policy_body version mode consent))

-- fetchOrganizationModelProfiles
abbrev pub fetch_organization_model_profiles : Scope → Option Call
fetch_organization_model_profiles scope =
    read scope (organization_path scope (literal (codes "/model-profiles") ∷ []))
