-- ===== src/Routes/Repositories.antt =====
-- src/app/api/repositories: activate, disable and request-change; policy is in Routes.Policy.
use evirion_engineering_memo.Prelude.{ℕ, Option, none, some, Text, codes, if◌then◌else◌}
use evirion_engineering_memo.ConsoleApi.{ConsoleResult, is_uuid}
use evirion_engineering_memo.Guard.{Request, form_get, as_string}
use evirion_engineering_memo.Commands.{
  World, Scope, Context, Response, back, guard_freshness, form_text,
}
use evirion_engineering_memo.Commands.Resources.{
  RepositoryFields, repository_path, begin_repository_command, repository_pending_mutation,
  finish_repository_command,
}
use evirion_engineering_memo.Adapters.Repositories.{
  activate_repository_entitlement, disable_repository_entitlement,
  request_repository_entitlement_change,
}
use evirion_engineering_memo.Routes.{
  Services, Reply, Decision, refuse, submit, decide, unless_stale, run_outcome,
}
use evirion_engineering_memo.Routes.Settings.{is_value}

-- refuseRepositoryCommand
abbrev pub refuse_repository_command : World → Text → Response
refuse_repository_command w id = back w (repository_path id) (codes "REQUEST_INVALID")

abbrev pub finish_repository :
    World → Text → RepositoryFields → Context → ConsoleResult Text → Response
finish_repository w path f context result =
    finish_repository_command w f.fields.id result
      (some (repository_pending_mutation f.fields path)) (some context)

abbrev pub repository_act :
    World
    → Services
    → Text
    → (Scope → RepositoryFields → Decision)
    → Scope
    → RepositoryFields
    → Context
    → Reply
repository_act w api path decision scope f context =
    unless_stale (guard_freshness w context (repository_pending_mutation f.fields path)) (
      decide api (refuse_repository_command w f.fields.id) (finish_repository w path f context)
        (decision scope f))

abbrev pub repository_route :
    World → Services → Text → (Scope → RepositoryFields → Decision) → Request → Reply
repository_route w api path decision r =
    run_outcome (repository_act w api path decision) (begin_repository_command w r)

abbrev pub activate_decision : Scope → RepositoryFields → Decision
activate_decision scope f =
    if is_value (codes "on") (form_get (codes "confirmationAccepted") f.fields.form)
    then submit (
        activate_repository_entitlement scope f.fields.id f.fields.idempotency_key
          f.expected_version)
    else refuse

-- POST of repositories/activate
unfoldable pub activate : World → Services → Request → Reply
activate w api = repository_route w api (codes "/api/repositories/activate") activate_decision

abbrev pub disable_fields : Scope → RepositoryFields → Option ℕ → Decision
disable_fields scope f none = refuse
disable_fields scope f (some version) = submit (
    disable_repository_entitlement scope f.fields.id f.fields.idempotency_key version
      (as_string (form_get (codes "reason") f.fields.form)))

abbrev pub disable_decision : Scope → RepositoryFields → Decision
disable_decision scope f = disable_fields scope f f.expected_version

-- POST of repositories/disable
unfoldable pub disable : World → Services → Request → Reply
disable w api = repository_route w api (codes "/api/repositories/disable") disable_decision

abbrev pub change_fields : Scope → RepositoryFields → Text → Option ℕ → Decision
change_fields scope f requested none = refuse
change_fields scope f requested (some version) =
    if is_uuid requested
    then submit (
        request_repository_entitlement_change scope f.fields.id f.fields.idempotency_key requested
          version (as_string (form_get (codes "reason") f.fields.form)))
    else refuse

abbrev pub change_decision : Scope → RepositoryFields → Decision
change_decision scope f =
    change_fields scope f (form_text (codes "requestedRepositoryId") f.fields.form)
      f.expected_version

-- POST of repositories/request-change
unfoldable pub request_change : World → Services → Request → Reply
request_change w api =
    repository_route w api (codes "/api/repositories/request-change") change_decision
