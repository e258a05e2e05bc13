-- ===== src/Reauth.antt =====
-- src/lib/auth/reauthentication-action-class.ts, and resolveMutationHandler of
-- src/server/actions/reauthentication-replay.ts: the gates of the step-up ceremony, their action
-- classes, and the mutations that may be paused and replayed.
pub mod Paths
pub mod State
use evirion_engineering_memo.Prelude.{
  Bool, true, false, List, [], ◌∷◌, Option, none, some, Text, codes, text_eq, includes,
  if◌then◌else◌,
}

pub data ActionClass : Type 0 where
  membership_change_class factor_change email_change account_recovery : ActionClass
  knowledge_lifecycle_class : ActionClass

pub data Gate : Type 0 where
  repository_import knowledge_lifecycle membership_change repository_policy : Gate

abbrev pub gate_name : Gate → Text
gate_name repository_import = codes "repository_import"
gate_name knowledge_lifecycle = codes "knowledge_lifecycle"
gate_name membership_change = codes "membership_change"
gate_name repository_policy = codes "repository_policy"

-- isReauthenticationGate, with the gate that the text names.
unfoldable pub gate_of : Text → Option Gate
gate_of value =
    if text_eq (codes "repository_import") value
    then some repository_import
    else if text_eq (codes "knowledge_lifecycle") value
    then some knowledge_lifecycle
    else if text_eq (codes "membership_change") value
    then some membership_change
    else if text_eq (codes "repository_policy") value
    then some repository_policy
    else none

-- actionClassForGate
abbrev pub action_class_for_gate : Gate → ActionClass
action_class_for_gate repository_import = membership_change_class
action_class_for_gate knowledge_lifecycle = knowledge_lifecycle_class
action_class_for_gate membership_change = membership_change_class
action_class_for_gate repository_policy = membership_change_class

abbrev pub action_class_name : ActionClass → Text
action_class_name membership_change_class = codes "membership_change"
action_class_name factor_change = codes "factor_change"
action_class_name email_change = codes "email_change"
action_class_name account_recovery = codes "account_recovery"
action_class_name knowledge_lifecycle_class = codes "knowledge_lifecycle"

-- MUTATION_PATHS_FOR_GATE
unfoldable pub mutation_paths_for_gate : Gate → List Text
mutation_paths_for_gate repository_import =
    codes "/api/imports/prepare"
    ∷ codes "/api/imports/approve"
    ∷ codes "/api/imports/state"
    ∷ codes "/api/imports/retry"
    ∷ []
mutation_paths_for_gate knowledge_lifecycle =
    codes "/api/memory/activate"
    ∷ codes "/api/memory/supersede"
    ∷ codes "/api/memory/corrections"
    ∷ []
mutation_paths_for_gate membership_change =
    codes "/api/settings/invitations/create"
    ∷ codes "/api/settings/invitations/resend"
    ∷ codes "/api/settings/invitations/revoke"
    ∷ codes "/api/settings/members/update"
    ∷ codes "/api/settings/offboarding/request"
    ∷ []
mutation_paths_for_gate repository_policy =
    codes "/api/repositories/activate"
    ∷ codes "/api/repositories/disable"
    ∷ codes "/api/repositories/policy"
    ∷ codes "/api/repositories/request-change"
    ∷ []

-- isAllowedMutationPath
unfoldable pub is_allowed_mutation_path : Gate → Text → Bool
is_allowed_mutation_path gate mutation_path = includes (mutation_paths_for_gate gate) mutation_path

-- The POST of the route that the module's name says.
pub data Handler : Type 0 where
  imports_prepare imports_approve imports_state imports_retry : Handler
  memory_activate memory_supersede memory_corrections : Handler
  invitations_create invitations_resend invitations_revoke : Handler
  members_update offboarding_request : Handler
  repositories_activate repositories_disable repositories_policy repositories_request_change :
      Handler

unfoldable pub handlers : List (Text × Handler)
handlers =
    (codes "/api/imports/prepare", imports_prepare)
    ∷ (codes "/api/imports/approve", imports_approve)
    ∷ (codes "/api/imports/state", imports_state)
    ∷ (codes "/api/imports/retry", imports_retry)
    ∷ (codes "/api/memory/activate", memory_activate)
    ∷ (codes "/api/memory/supersede", memory_supersede)
    ∷ (codes "/api/memory/corrections", memory_corrections)
    ∷ (codes "/api/settings/invitations/create", invitations_create)
    ∷ (codes "/api/settings/invitations/resend", invitations_resend)
    ∷ (codes "/api/settings/invitations/revoke", invitations_revoke)
    ∷ (codes "/api/settings/members/update", members_update)
    ∷ (codes "/api/settings/offboarding/request", offboarding_request)
    ∷ (codes "/api/repositories/activate", repositories_activate)
    ∷ (codes "/api/repositories/disable", repositories_disable)
    ∷ (codes "/api/repositories/policy", repositories_policy)
    ∷ (codes "/api/repositories/request-change", repositories_request_change)
    ∷ []

-- `switch` over texts
unfoldable pub switch {ℓ} : {A : Type ℓ} → List (Text × A) → Text → Option A
switch [] value = none
switch ((t, a) ∷ rows) value = if text_eq t value then some a else switch rows value

-- resolveMutationHandler
unfoldable pub resolve_mutation_handler : Text → Option Handler
resolve_mutation_handler mutation_path = switch handlers mutation_path
