-- ===== src/Routes/Replayable.antt =====
-- Which mutation a command route of src/app/api pauses: its own, under a gate that admits its path.
use evirion_engineering_memo.Prelude.{
  ◌≡◌, inl, inr, refl, true, not, List, Option, none, some, Bool-cases, ℕ, Text, codes, text_eq,
  includes,
}
use evirion_engineering_memo.Guard.{Form, Request}
use evirion_engineering_memo.ConsoleApi.{ConsoleResult, success, failure}
use evirion_engineering_memo.Reauth.{
  Handler, imports_prepare, imports_approve, imports_state, imports_retry, memory_activate,
  memory_supersede, memory_corrections, invitations_create, invitations_resend, invitations_revoke,
  members_update, offboarding_request, repositories_activate, repositories_disable,
  repositories_policy, repositories_request_change, handlers, switch, resolve_mutation_handler,
  mutation_paths_for_gate, is_allowed_mutation_path,
}
use evirion_engineering_memo.Reauth.State.{PendingDraft, serialize_pending_mutation}
use evirion_engineering_memo.Commands.{
  form_text, World, Context, Scope, guard_freshness, pending_of,
}
use evirion_engineering_memo.Commands.Resources.{
  CommandFields, RepositoryFields, begin_repository_command, import_fields, import_path,
  knowledge_fields, knowledge_path, membership_fields, repository_fields, repository_path,
  settings_path, import_pending_mutation, knowledge_pending_mutation, membership_pending_mutation,
  repository_pending_mutation,
}
use evirion_engineering_memo.Adapters.{Call}
use evirion_engineering_memo.Adapters.Repositories.{Consent}
use evirion_engineering_memo.Routes.{
  Profile, Services, Reply, replied, raised, Decision, decide, submit_call, unless_stale,
  run_outcome,
}
use evirion_engineering_memo.Routes.Imports
use evirion_engineering_memo.Routes.Memory
use evirion_engineering_memo.Routes.Settings
use evirion_engineering_memo.Routes.Repositories
use evirion_engineering_memo.Routes.Policy
use evirion_engineering_memo.Routes.Dispatch.{handle}
use evirion_engineering_memo.Routes.Carried.{
  Carries, IsReady-Carries, import_fields-form, knowledge_fields-form, membership_fields-form,
  repository_fields-form,
}
use evirion_engineering_memo.Routes.Paused.{
  Replies, IsTokenOf, back-Stores, run-Replies, unless_stale-Replies, decide-Replies,
  finish_import-Stores, finish_knowledge-Stores, finish_membership-Stores, finish_repository-Stores,
}

-- The mutation that a token pauses, for a session: one that this handler replays, under its own gate, with
-- the fields of the form that passed the guard.
pub record IsPausedFor (w : World) (h : Handler) (r : Request) (token : Text) : Type 0 where
  pub draft : PendingDraft
  pub session_id : Text
  pub paused :
      token ≡ serialize_pending_mutation w.environment.mac w.encode (pending_of w draft session_id)
  pub resolved : resolve_mutation_handler draft.mutation_path ≡ some h
  pub admitted : is_allowed_mutation_path draft.gate draft.mutation_path ≡ true
  pub carries : Carries w r draft.fields

module _ (w : World) (api : Services) (scope : Scope) (f : RepositoryFields)
    (context : Context) where
  abbrev IsPolicyToken : Text → Type 0
  IsPolicyToken = IsTokenOf w (repository_pending_mutation f.fields Policy.policy_path)

  submit_call-Replies :
      (o : Option Call)
      → Replies IsPolicyToken
          (submit_call api (Repositories.finish_repository w Policy.policy_path f context) o)
  submit_call-Replies none = tt
  submit_call-Replies (some call) = finish_repository-Stores w context Policy.policy_path f _

  submit_consent-Replies :
      (version : ℕ) (o : Option Consent)
      → Replies IsPolicyToken (Policy.submit_consent w api scope f context version o)
  submit_consent-Replies version none = back-Stores IsPolicyToken w _ _
  submit_consent-Replies version (some consent) = submit_call-Replies _

  consult-Replies :
      (version : ℕ) (answer : ConsoleResult (List Profile))
      → Replies IsPolicyToken (Policy.consult w api scope f context version answer)
  consult-Replies version (success profiles id) = submit_consent-Replies version _
  consult-Replies version (failure e) =
      finish_repository-Stores w context Policy.policy_path f (failure e)

  behind-Replies :
      (call : Call) (reply : Reply)
      → Replies IsPolicyToken reply
      → Replies IsPolicyToken (Policy.behind call reply)
  behind-Replies call (replied calls response) h = h
  behind-Replies call (raised calls) h = tt

  consult_catalogue-Replies :
      (version : ℕ) (o : Option Call)
      → Replies IsPolicyToken (Policy.consult_catalogue w api scope f context version o)
  consult_catalogue-Replies version none = tt
  consult_catalogue-Replies version (some call) = behind-Replies call _ (consult-Replies version _)

  policy_mode-Replies :
      (mode : Text) (version : ℕ)
      → Replies IsPolicyToken (Policy.policy_mode w api scope f context mode version)
  policy_mode-Replies mode version = elim (Bool-cases (not (includes Policy.policy_modes mode))) [
    | inl bad ↦ rw bad (back-Stores IsPolicyToken w _ _)
    | inr good ↦ elim (Bool-cases (text_eq mode (codes "AUTO_EXTRACT"))) [
      | inl auto ↦ rw (good, auto) (consult_catalogue-Replies version _)
      | inr other ↦ rw (good, other) (submit_call-Replies _)
    ]
  ]

  policy_version-Replies :
      (o : Option ℕ) → Replies IsPolicyToken (Policy.policy_version w api scope f context o)
  policy_version-Replies none = back-Stores IsPolicyToken w _ _
  policy_version-Replies (some version) = policy_mode-Replies _ version

-- The handler and the gate of a path.
abbrev IsReplayed : Handler → PendingDraft → Type 0
IsReplayed h draft =
    (resolve_mutation_handler draft.mutation_path ≡ some h)
    × (is_allowed_mutation_path draft.gate draft.mutation_path ≡ true)

token-IsPausedFor :
    (w : World) (h : Handler) (r : Request) (draft : PendingDraft) (token : Text)
    → IsReplayed h draft
    → Carries w r draft.fields
    → IsTokenOf w draft token
    → IsPausedFor w h r token
token-IsPausedFor w h r draft token (resolved, admitted) carries (id, e) = record {
  draft = draft;
  session_id = id;
  paused = e;
  resolved = resolved;
  admitted = admitted;
  carries = carries;
}

Replies-map :
    (P Q : Text → Type 0) (reply : Reply)
    → ((token : Text) → P token → Q token)
    → Replies P reply
    → Replies Q reply
Replies-map P Q (replied calls response) h k = λ token e. h token (k token e)
Replies-map P Q (raised calls) h k = tt

module _ (w : World) (api : Services) (r : Request) (h : Handler) (path : Text) where
  import_route-Replies :
      (decision : Scope → CommandFields → Decision)
      → ((f : CommandFields) → IsReplayed h (import_pending_mutation f path))
      → Replies (IsPausedFor w h r) (Imports.import_route w api path decision r)
  import_route-Replies decision replayed =
      run-Replies w import_fields (λ form. import_path (form_text (codes "repositoryId") form)) r
        (IsPausedFor w h r) (Imports.import_act w api path decision)
        (λ scope f context a.
          Replies-map (IsTokenOf w (import_pending_mutation f path)) (IsPausedFor w h r) _
            (λ token. token-IsPausedFor w h r (import_pending_mutation f path) token (replayed f) (
              IsReady-Carries w import_fields r scope f context a f.form
                (import_fields-form a.form f a.admitted)))
            (unless_stale-Replies w (import_pending_mutation f path) context _ (
              decide-Replies _ api _ (Imports.finish_import w path f context) (decision scope f)
                (back-Stores _ w _ _) (finish_import-Stores w context path f))))

  knowledge_route-Replies :
      (decision : Scope → CommandFields → Decision)
      → ((f : CommandFields) → IsReplayed h (knowledge_pending_mutation f path))
      → Replies (IsPausedFor w h r) (Memory.knowledge_route w api path decision r)
  knowledge_route-Replies decision replayed =
      run-Replies w knowledge_fields
        (λ form. knowledge_path (form_text (codes "knowledgeObjectId") form)) r (IsPausedFor w h r)
        (Memory.knowledge_act w api path decision)
        (λ scope f context a.
          Replies-map (IsTokenOf w (knowledge_pending_mutation f path)) (IsPausedFor w h r) _
            (λ token.
              token-IsPausedFor w h r (knowledge_pending_mutation f path) token (replayed f) (
                IsReady-Carries w knowledge_fields r scope f context a f.form
                  (knowledge_fields-form a.form f a.admitted)))
            (unless_stale-Replies w (knowledge_pending_mutation f path) context _ (
              decide-Replies _ api _ (Memory.finish_knowledge w path f context) (decision scope f)
                (back-Stores _ w _ _) (finish_knowledge-Stores w context path f))))

  membership_route-Replies :
      (decision : Scope → Text × Form → Decision)
      → ((f : Text × Form) → IsReplayed h (membership_pending_mutation f.1 path))
      → Replies (IsPausedFor w h r) (Settings.membership_route w api path decision r)
  membership_route-Replies decision replayed =
      run-Replies w membership_fields (λ form. settings_path) r (IsPausedFor w h r)
        (Settings.membership_act w api path decision)
        (λ scope f context a.
          Replies-map (IsTokenOf w (membership_pending_mutation f.1 path)) (IsPausedFor w h r) _
            (λ token.
              token-IsPausedFor w h r (membership_pending_mutation f.1 path) token (replayed f) (
                IsReady-Carries w membership_fields r scope f context a (f.1)
                  (membership_fields-form a.form f a.admitted)))
            (unless_stale-Replies w (membership_pending_mutation f.1 path) context _ (
              decide-Replies _ api _ (Settings.finish_membership w path f context)
                (decision scope f) (back-Stores _ w _ _)
                (finish_membership-Stores w context path f))))

  repository_act-Replies :
      (act : Scope → RepositoryFields → Context → Reply)
      → ((f : RepositoryFields) → IsReplayed h (repository_pending_mutation f.fields path))
      → ((scope : Scope) (f : RepositoryFields) (context : Context)
          → Replies (IsTokenOf w (repository_pending_mutation f.fields path)) (act scope f context))
      → Replies (IsPausedFor w h r) (
          run_outcome
            (λ scope f context.
              unless_stale
                (guard_freshness w context (repository_pending_mutation f.fields path))
                (act scope f context))
            (begin_repository_command w r))
  repository_act-Replies act replayed acts =
      run-Replies w (repository_fields w)
        (λ form. repository_path (form_text (codes "repositoryId") form)) r (IsPausedFor w h r) _
        (λ scope f context a.
          Replies-map (IsTokenOf w (repository_pending_mutation f.fields path)) (IsPausedFor w h r)
            _
            (λ token.
              token-IsPausedFor w h r (repository_pending_mutation f.fields path) token (replayed f)
                (IsReady-Carries w (repository_fields w) r scope f context a f.fields.form
                  (repository_fields-form w a.form f a.admitted)))
            (unless_stale-Replies w (repository_pending_mutation f.fields path) context _
              (acts scope f context)))

  repository_route-Replies :
      (decision : Scope → RepositoryFields → Decision)
      → ((f : RepositoryFields) → IsReplayed h (repository_pending_mutation f.fields path))
      → Replies (IsPausedFor w h r) (Repositories.repository_route w api path decision r)
  repository_route-Replies decision replayed =
      repository_act-Replies
        (λ scope f context.
          decide api (Repositories.refuse_repository_command w f.fields.id)
            (Repositories.finish_repository w path f context) (decision scope f))
        replayed
        (λ scope f context.
          decide-Replies _ api _ (Repositories.finish_repository w path f context)
            (decision scope f) (back-Stores _ w _ _) (finish_repository-Stores w context path f))

-- A response of a route that may be replayed stores a paused mutation, if it stores anything, of which
-- the path resolves to the same route and is admitted by the gate that the mutation names, and of which the
-- fields are the text fields of the form that passed the guard, as formFieldsFrom collects them.
pub handle-IsPausedFor :
    (w : World) (api : Services) (h : Handler) (r : Request)
    → Replies (IsPausedFor w h r) (handle w api h r)
unfolding Imports.prepare Imports.approve Imports.set_state Imports.retry Memory.activate
    Memory.supersede Memory.correct Settings.create_invitation Settings.resend_invitation
    Settings.revoke_invitation Settings.update_member Settings.request_offboarding
    Repositories.activate Repositories.disable Repositories.request_change Policy.policy
    resolve_mutation_handler switch handlers text_eq is_allowed_mutation_path
    mutation_paths_for_gate includes
handle-IsPausedFor w api imports_prepare r =
    import_route-Replies w api r _ _ (Imports.prepare_decision api) (λ f. (refl, refl))
handle-IsPausedFor w api imports_approve r =
    import_route-Replies w api r _ _ (Imports.approve_decision api) (λ f. (refl, refl))
handle-IsPausedFor w api imports_state r =
    import_route-Replies w api r _ _ Imports.state_decision (λ f. (refl, refl))
handle-IsPausedFor w api imports_retry r =
    import_route-Replies w api r _ _ Imports.retry_decision (λ f. (refl, refl))
handle-IsPausedFor w api memory_activate r =
    knowledge_route-Replies w api r _ _ Memory.activate_decision (λ f. (refl, refl))
handle-IsPausedFor w api memory_supersede r =
    knowledge_route-Replies w api r _ _ Memory.supersede_decision (λ f. (refl, refl))
handle-IsPausedFor w api memory_corrections r =
    knowledge_route-Replies w api r _ _ Memory.correction_decision (λ f. (refl, refl))
handle-IsPausedFor w api invitations_create r =
    membership_route-Replies w api r _ _ Settings.create_decision (λ f. (refl, refl))
handle-IsPausedFor w api invitations_resend r =
    membership_route-Replies w api r _ _ (Settings.resend_decision w) (λ f. (refl, refl))
handle-IsPausedFor w api invitations_revoke r =
    membership_route-Replies w api r _ _ (Settings.revoke_decision w) (λ f. (refl, refl))
handle-IsPausedFor w api members_update r =
    membership_route-Replies w api r _ _ (Settings.update_decision w) (λ f. (refl, refl))
handle-IsPausedFor w api offboarding_request r =
    membership_route-Replies w api r _ _ Settings.offboarding_decision (λ f. (refl, refl))
handle-IsPausedFor w api repositories_activate r =
    repository_route-Replies w api r _ _ Repositories.activate_decision (λ f. (refl, refl))
handle-IsPausedFor w api repositories_disable r =
    repository_route-Replies w api r _ _ Repositories.disable_decision (λ f. (refl, refl))
handle-IsPausedFor w api repositories_request_change r =
    repository_route-Replies w api r _ _ Repositories.change_decision (λ f. (refl, refl))
handle-IsPausedFor w api repositories_policy r =
    repository_act-Replies w api r _ Policy.policy_path
      (λ scope f context. Policy.policy_version w api scope f context f.expected_version)
      (λ f. (refl, refl)) (λ scope f context. policy_version-Replies w api scope f context _)
