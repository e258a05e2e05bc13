-- ===== src/Routes/Dispatch.antt =====
-- The handlers that resolveMutationHandler of src/server/actions/reauthentication-replay.ts resolves to.
use evirion_engineering_memo.Guard.{Request}
use evirion_engineering_memo.Commands.{World}
use evirion_engineering_memo.Reauth.{
  Handler, imports_prepare, imports_approve, imports_state, imports_retry, memory_activate,
  memory_supersede, memory_corrections, invitations_create, invitations_resend, invitations_revoke,
  members_update, offboarding_request, repositories_activate, repositories_disable,
  repositories_policy, repositories_request_change,
}
use evirion_engineering_memo.Routes.{Services, Reply}
use evirion_engineering_memo.Routes.Imports
use evirion_engineering_memo.Routes.Memory
use evirion_engineering_memo.Routes.Settings
use evirion_engineering_memo.Routes.Repositories
use evirion_engineering_memo.Routes.Policy

-- The POST of the module that a case imports.
abbrev pub handle : World → Services → Handler → Request → Reply
handle w api imports_prepare = Imports.prepare w api
handle w api imports_approve = Imports.approve w api
handle w api imports_state = Imports.set_state w api
handle w api imports_retry = Imports.retry w api
handle w api memory_activate = Memory.activate w api
handle w api memory_supersede = Memory.supersede w api
handle w api memory_corrections = Memory.correct w api
handle w api invitations_create = Settings.create_invitation w api
handle w api invitations_resend = Settings.resend_invitation w api
handle w api invitations_revoke = Settings.revoke_invitation w api
handle w api members_update = Settings.update_member w api
handle w api offboarding_request = Settings.request_offboarding w api
handle w api repositories_activate = Repositories.activate w api
handle w api repositories_disable = Repositories.disable w api
handle w api repositories_policy = Policy.policy w api
handle w api repositories_request_change = Repositories.request_change w api
