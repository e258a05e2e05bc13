-- ===== src/Commands/Resources.antt =====
-- The four resources: src/server/actions/import-command.ts, membership-command.ts,
-- repository-command.ts and knowledge-command.ts. A receipt is its response code.
use evirion_engineering_memo.Prelude.{
  ℕ, ◌&&◌, [], ◌∷◌, ◌++◌, Option, none, some, Text, codes, text_eq, leb, length, all, number_of,
  is_digit, if◌then◌else◌,
}
use evirion_engineering_memo.Guard.{Form, FormValue, string, file, Request, form_get}
use evirion_engineering_memo.ConsoleApi.{ConsoleResult, success, failure, is_uuid}
use evirion_engineering_memo.Reauth.{
  Gate, repository_import, knowledge_lifecycle, membership_change, repository_policy,
  action_class_for_gate,
}
use evirion_engineering_memo.Reauth.State.{PendingDraft, form_fields_from}
use evirion_engineering_memo.Commands.{
  World, Context, Response, Outcome, back, begin_with, form_text, finish_failure,
}

-- ImportCommandFields and KnowledgeCommandFields, by their identifier
pub record CommandFields : Type 0 where
  pub id : Text
  pub idempotency_key : Text
  pub form : Form

abbrev pub settings_path : Text
settings_path = codes "/settings/members"

-- importPath
unfoldable pub import_path : Text → Text
import_path repository_id =
    if is_uuid repository_id
    then codes "/repositories/" ++ (repository_id ++ codes "/import")
    else codes "/repositories"

-- repositoryPath
unfoldable pub repository_path : Text → Text
repository_path repository_id =
    if is_uuid repository_id then codes "/repositories/" ++ repository_id else codes "/repositories"

-- knowledgePath
unfoldable pub knowledge_path : Text → Text
knowledge_path knowledge_object_id =
    if is_uuid knowledge_object_id then codes "/memory/" ++ knowledge_object_id else codes "/memory"

abbrev pub identified : Text → Form → Option CommandFields
identified id form =
    if is_uuid id && is_uuid (form_text (codes "idempotencyKey") form)
    then some
        (record { id = id; idempotency_key = form_text (codes "idempotencyKey") form; form = form })
    else none

-- The fields that beginImportCommand reads.
unfoldable pub import_fields : Form → Option CommandFields
import_fields form = identified (form_text (codes "repositoryId") form) form

-- beginImportCommand
abbrev pub begin_import_command : World → Request → Outcome CommandFields
begin_import_command w =
    begin_with w import_fields (λ form. import_path (form_text (codes "repositoryId") form))

unfoldable pub knowledge_fields : Form → Option CommandFields
knowledge_fields form = identified (form_text (codes "knowledgeObjectId") form) form

-- beginKnowledgeCommand
abbrev pub begin_knowledge_command : World → Request → Outcome CommandFields
begin_knowledge_command w =
    begin_with w knowledge_fields
      (λ form. knowledge_path (form_text (codes "knowledgeObjectId") form))

unfoldable pub membership_fields : Form → Option (Text × Form)
membership_fields form =
    if is_uuid (form_text (codes "idempotencyKey") form)
    then some (form_text (codes "idempotencyKey") form, form)
    else none

-- beginMembershipCommand
abbrev pub begin_membership_command : World → Request → Outcome (Text × Form)
begin_membership_command w = begin_with w membership_fields (λ form. settings_path)

-- A version that a form carries: absent, one that the backend may have issued, or neither.
pub data Version : Type 0 where
  unversioned refused_version : Version
  version : ℕ → Version

abbrev pub positive : Option ℕ → Version
positive none = refused_version
positive (some n) = if leb 1 n then version n else refused_version

-- parseVersion of repository-command.ts
unfoldable pub parse_version : World → Option FormValue → Version
parse_version w none = unversioned
parse_version w (some (string [])) = unversioned
parse_version w (some (string (c ∷ s))) = positive (w.integer_of (c ∷ s))
parse_version w (some file) = refused_version

pub record RepositoryFields : Type 0 where
  pub fields : CommandFields
  pub expected_version : Option ℕ

abbrev pub versioned : Option CommandFields → Version → Option RepositoryFields
versioned none v = none
versioned (some f) refused_version = none
versioned (some f) unversioned = some (record { fields = f; expected_version = none })
versioned (some f) (version n) = some (record { fields = f; expected_version = some n })

unfoldable pub repository_fields : World → Form → Option RepositoryFields
repository_fields w form =
    versioned (identified (form_text (codes "repositoryId") form) form)
      (parse_version w (form_get (codes "expectedVersion") form))

-- beginRepositoryCommand
abbrev pub begin_repository_command : World → Request → Outcome RepositoryFields
begin_repository_command w =
    begin_with w (repository_fields w)
      (λ form. repository_path (form_text (codes "repositoryId") form))

abbrev pending_mutation : Gate → Text → Text → Form → PendingDraft
pending_mutation gate return_path mutation_path form = record {
  return_path = return_path;
  mutation_path = mutation_path;
  fields = form_fields_from form;
  gate = gate;
  action_class = action_class_for_gate gate;
}

-- importPendingMutation
abbrev pub import_pending_mutation : CommandFields → Text → PendingDraft
import_pending_mutation f mutation_path =
    pending_mutation repository_import (import_path f.id) mutation_path f.form

-- membershipPendingMutation
abbrev pub membership_pending_mutation : Form → Text → PendingDraft
membership_pending_mutation form mutation_path =
    pending_mutation membership_change settings_path mutation_path form

-- repositoryPendingMutation
abbrev pub repository_pending_mutation : CommandFields → Text → PendingDraft
repository_pending_mutation f mutation_path =
    pending_mutation repository_policy (repository_path f.id) mutation_path f.form

-- knowledgePendingMutation
abbrev pub knowledge_pending_mutation : CommandFields → Text → PendingDraft
knowledge_pending_mutation f mutation_path =
    pending_mutation knowledge_lifecycle (knowledge_path f.id) mutation_path f.form

unfoldable pub resume_blocked : Text
resume_blocked = codes "REPOSITORY_IMPORT_RESUME_BLOCKED"

abbrev pub import_result : Text → Text
import_result response_code =
    if text_eq response_code resume_blocked then resume_blocked else codes "applied"

-- finishImportCommand
unfoldable pub finish_import_command :
    World → Text → ConsoleResult Text → Option PendingDraft → Option Context → Response
finish_import_command w repository_id (success response_code request_id) pending context =
    back w (import_path repository_id) (import_result response_code)
finish_import_command w repository_id (failure e) pending context =
    finish_failure w (import_path repository_id) pending context e

-- finishRepositoryCommand
unfoldable pub finish_repository_command :
    World → Text → ConsoleResult Text → Option PendingDraft → Option Context → Response
finish_repository_command w repository_id (success receipt request_id) pending context =
    back w (repository_path repository_id) (codes "applied")
finish_repository_command w repository_id (failure e) pending context =
    finish_failure w (repository_path repository_id) pending context e

-- finishKnowledgeCommand
unfoldable pub finish_knowledge_command :
    World → Text → ConsoleResult Text → Option PendingDraft → Option Context → Response
finish_knowledge_command w knowledge_object_id (success response_code request_id) pending context =
    back w (knowledge_path knowledge_object_id) response_code
finish_knowledge_command w knowledge_object_id (failure e) pending context =
    finish_failure w (knowledge_path knowledge_object_id) pending context e

-- finishMembershipCommand
unfoldable pub finish_membership_command :
    World → ConsoleResult Text → Option PendingDraft → Option Context → Response
finish_membership_command w (success response_code request_id) pending context =
    back w settings_path response_code
finish_membership_command w (failure e) pending context =
    finish_failure w settings_path pending context e

-- readExpectedSequence: /^\d{1,15}$/
unfoldable pub read_expected_sequence : Form → Text → Option ℕ
read_expected_sequence form name = elim (form_get name form) [
  | none ↦ none
  | some file ↦ none
  | some (string s) ↦
      if leb 1 (length s) && (leb (length s) 15 && all is_digit s) then some (number_of s) else none
]
