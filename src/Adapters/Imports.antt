-- ===== src/Adapters/Imports.antt =====
-- The commands of src/server/adapters/imports.ts.
use evirion_engineering_memo.Prelude.{true, List, [], ◌∷◌, Option, none, some, Text, codes}
use evirion_engineering_memo.Prelude.Json.{text, boolean, object, no_fields, field}
use evirion_engineering_memo.Commands.{Scope}
use evirion_engineering_memo.Adapters.{
  Call, Part, literal, identifier, organization_path, command, spread, optional_text,
}

-- RepositoryImportFilters
pub record ImportFilters : Type 0 where
  pub merged_from : Option Text
  pub merged_to : Option Text

-- importPath of the adapter
abbrev pub import_call_path : Scope → Text → List Part → List Part
import_call_path scope import_id suffix =
    organization_path scope (literal (codes "/imports/") ∷ identifier import_id ∷ suffix)

-- createRepositoryImport
abbrev pub create_repository_import : Scope → Text → Text → ImportFilters → Option Call
create_repository_import scope repository_id key filters =
    command scope (codes "POST")
      (organization_path scope (
        literal (codes "/repositories/")
        ∷ identifier repository_id
        ∷ literal (codes "/imports")
        ∷ []))
      key
      (some (
        object (
          field (codes "confirmationAccepted") (boolean true) (
            field (codes "filters")
              (object (
                spread (codes "mergedFrom") (optional_text filters.merged_from)
                  (spread (codes "mergedTo") (optional_text filters.merged_to) no_fields)))
              no_fields))))

-- approveRepositoryImport
abbrev pub approve_repository_import : Scope → Text → Text → Text → Text → Option Call
approve_repository_import scope import_id key expected_status cost_budget_usd =
    command scope (codes "POST")
      (import_call_path scope import_id (literal (codes "/approve") ∷ [])) key
      (some (
        object (
          field (codes "expectedStatus") (text expected_status) (
            field (codes "costBudgetUsd") (text cost_budget_usd)
              (field (codes "confirmationAccepted") (boolean true) no_fields)))))

-- setRepositoryImportState
abbrev pub set_repository_import_state : Scope → Text → Text → Text → Text → Option Call
set_repository_import_state scope import_id key state expected_status =
    command scope (codes "PATCH") (import_call_path scope import_id (literal (codes "/state") ∷ []))
      key
      (some (
        object (
          field (codes "state") (text state) (
            field (codes "expectedStatus") (text expected_status)
              (field (codes "confirmationAccepted") (boolean true) no_fields)))))

-- retryRepositoryImportJob
abbrev pub retry_repository_import_job : Scope → Text → Text → Text → Option Call
retry_repository_import_job scope import_id key extraction_job_id =
    command scope (codes "POST")
      (import_call_path scope import_id (
        literal (codes "/failures/")
        ∷ identifier extraction_job_id
        ∷ literal (codes "/retry")
        ∷ []))
      key none
