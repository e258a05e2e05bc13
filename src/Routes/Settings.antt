-- ===== src/Routes/Settings.antt =====
-- src/app/api/settings: the invitations, the members and the offboarding.
use evirion_engineering_memo.Prelude.{
  ℕ, Bool, true, false, Option, none, some, Text, codes, text_eq, if◌then◌else◌,
}
use evirion_engineering_memo.ConsoleApi.{ConsoleResult}
use evirion_engineering_memo.Guard.{Form, Request, FormValue, string, file, form_get}
use evirion_engineering_memo.Commands.{
  World, Scope, Context, Response, back, guard_freshness, form_text,
}
use evirion_engineering_memo.Commands.Resources.{
  settings_path, begin_membership_command, membership_pending_mutation, finish_membership_command,
}
use evirion_engineering_memo.Commands.Fields.{
  read_invitation_id, read_membership_id, read_membership_role, read_expected_version,
  read_invitation_email, read_filled,
}
use evirion_engineering_memo.Adapters.Settings.{
  create_organization_invitation, resend_organization_invitation, revoke_organization_invitation,
  update_organization_membership, request_organization_offboarding,
}
use evirion_engineering_memo.Routes.{
  Services, Reply, Decision, refuse, submit, decide, unless_stale, run_outcome,
}

-- refuseMembershipCommand
abbrev pub refuse_membership_command : World → Response
refuse_membership_command w = back w settings_path (codes "REQUEST_INVALID")

abbrev pub finish_membership : World → Text → Text × Form → Context → ConsoleResult Text → Response
finish_membership w path f context result =
    finish_membership_command w result (some (membership_pending_mutation f.1 path)) (some context)

-- The fields are the idempotency key and the form.
abbrev pub membership_act :
    World
    → Services
    → Text
    → (Scope → Text × Form → Decision)
    → Scope
    → Text × Form
    → Context
    → Reply
membership_act w api path decision scope f context =
    unless_stale (guard_freshness w context (membership_pending_mutation f.1 path)) (
      decide api (refuse_membership_command w) (finish_membership w path f context)
        (decision scope f))

abbrev pub membership_route :
    World → Services → Text → (Scope → Text × Form → Decision) → Request → Reply
membership_route w api path decision r =
    run_outcome (membership_act w api path decision) (begin_membership_command w r)

abbrev pub create_fields : Scope → Text → Option Text → Option Text → Decision
create_fields scope key (some email) (some role) =
    submit (create_organization_invitation scope key email role)
create_fields scope key _ _ = refuse

abbrev pub create_decision : Scope → Text × Form → Decision
create_decision scope f =
    create_fields scope f.0 (read_invitation_email f.1) (read_membership_role f.1)

-- POST of invitations/create
unfoldable pub create_invitation : World → Services → Request → Reply
create_invitation w api =
    membership_route w api (codes "/api/settings/invitations/create") create_decision

abbrev pub resend_fields : Scope → Text → Option Text → Option ℕ → Decision
resend_fields scope key (some id) (some version) =
    submit (resend_organization_invitation scope key id version)
resend_fields scope key _ _ = refuse

abbrev pub resend_decision : World → Scope → Text × Form → Decision
resend_decision w scope f =
    resend_fields scope f.0 (read_invitation_id f.1) (read_expected_version w f.1)

-- POST of invitations/resend
unfoldable pub resend_invitation : World → Services → Request → Reply
resend_invitation w api =
    membership_route w api (codes "/api/settings/invitations/resend") (resend_decision w)

abbrev pub revoke_fields : Scope → Text → Option Text → Option ℕ → Decision
revoke_fields scope key (some id) (some version) =
    submit (revoke_organization_invitation scope key id version)
revoke_fields scope key _ _ = refuse

abbrev pub revoke_decision : World → Scope → Text × Form → Decision
revoke_decision w scope f =
    revoke_fields scope f.0 (read_invitation_id f.1) (read_expected_version w f.1)

-- POST of invitations/revoke
unfoldable pub revoke_invitation : World → Services → Request → Reply
revoke_invitation w api =
    membership_route w api (codes "/api/settings/invitations/revoke") (revoke_decision w)

abbrev pub update_fields : Scope → Text → Text → Option Text → Option ℕ → Option Text → Decision
update_fields scope key action (some id) (some version) (some role) =
    if text_eq action (codes "change_role")
    then submit (update_organization_membership scope key id (codes "change_role") role version)
    else refuse
update_fields scope key action _ _ _ = refuse

abbrev pub update_decision : World → Scope → Text × Form → Decision
update_decision w scope f =
    update_fields scope f.0 (form_text (codes "action") f.1) (read_membership_id f.1)
      (read_expected_version w f.1) (read_membership_role f.1)

-- POST of members/update
unfoldable pub update_member : World → Services → Request → Reply
update_member w api =
    membership_route w api (codes "/api/settings/members/update") (update_decision w)

-- `form.get(name) === expected`
abbrev pub is_value : Text → Option FormValue → Bool
is_value expected none = false
is_value expected (some (string s)) = text_eq s expected
is_value expected (some file) = false

abbrev pub offboarding_decision : Scope → Text × Form → Decision
offboarding_decision scope f =
    if is_value (codes "true") (form_get (codes "confirmationAccepted") f.1)
    then submit (request_organization_offboarding scope f.0 true (read_filled (codes "reason") f.1))
    else refuse

-- POST of offboarding/request
unfoldable pub request_offboarding : World → Services → Request → Reply
request_offboarding w api =
    membership_route w api (codes "/api/settings/offboarding/request") offboarding_decision
