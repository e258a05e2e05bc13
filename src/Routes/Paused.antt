-- ===== src/Routes/Paused.antt =====
-- What the responses of the command routes of src/app/api store: a paused mutation, or nothing.
use evirion_engineering_memo.Prelude.{
  ◌≡◌, inl, inr, refl, sym, ap, subst, ◌∙◌, Option, none, some, Option-cases, some_inv, Text, codes,
}
use evirion_engineering_memo.Session.{ReadOutcome, active, anonymous, refused}
use evirion_engineering_memo.Guard.{Form, Request, guard_mutation, session_binding_from}
use evirion_engineering_memo.ConsoleApi.{ConsoleResult, success, failure}
use evirion_engineering_memo.Reauth.State.{PendingDraft, serialize_pending_mutation}
use evirion_engineering_memo.Commands.{
  World, Context, Response, Scope, Outcome, rejected, back, redirect, begin_context, begin_session,
  begin_fields, begin_with, guard_freshness, pending_of, finish_failure,
}
use evirion_engineering_memo.Commands.Resources.{
  CommandFields, RepositoryFields, import_pending_mutation, knowledge_pending_mutation,
  membership_pending_mutation, repository_pending_mutation, finish_import_command,
  finish_knowledge_command, finish_membership_command, finish_repository_command,
}
use evirion_engineering_memo.Commands.Admission.{IsReady, GuardResult-cases, begin_with-IsReady}
use evirion_engineering_memo.Commands.Pauses.{
  none-some, back-stored, guard_freshness_inv, finish_failure-stored,
}
use evirion_engineering_memo.Routes.{
  Services, Reply, replied, raised, Decision, refuse, submit, decide, unless_stale, run_outcome,
}
use evirion_engineering_memo.Routes.Imports
use evirion_engineering_memo.Routes.Memory
use evirion_engineering_memo.Routes.Settings
use evirion_engineering_memo.Routes.Repositories
use evirion_engineering_memo.Routes.Laws.{Outcome-cases}

-- What a response stores is a draft, or nothing.
abbrev pub Stores : (Text → Type 0) → Response → Type 0
Stores P response = (token : Text) → response.stored ≡ some token → P token

abbrev pub Replies : (Text → Type 0) → Reply → Type 0
Replies P (replied calls response) = Stores P response
Replies P (raised calls) = Unit

rejected_inv :
    {F : Type 0} {a b : Response} {o : Outcome F} → o ≡ rejected a → o ≡ rejected b → a ≡ b
rejected_inv e h = cc

none-Stores : (P : Text → Type 0) (response : Response) → response.stored ≡ none → Stores P response
none-Stores P response e token h = absurd (none-some (sym e ∙ h))

pub back-Stores : (P : Text → Type 0) (w : World) (path code : Text) → Stores P (back w path code)
back-Stores P w path code = none-Stores P (back w path code) (back-stored w path code)

module _ {F : Type 0} (w : World) (fields : Form → Option F) (path : Form → Text) (r : Request)
    (P : Text → Type 0) where
  begin_context-rejects :
      (token : Text) (form : Form) (f : F) (answer : ConsoleResult Context) (response : Response)
      → begin_context w fields path token form f answer ≡ rejected response
      → Stores P response
  begin_context-rejects token form f (success context id) response h = absurd (cc)
  begin_context-rejects token form f (failure e) response h =
      subst (Stores P) (rejected_inv refl h)
        (back-Stores P w (path form) (codes "DEPENDENCY_UNAVAILABLE"))

  begin_session-rejects :
      (form : Form) (f : F) (o : ReadOutcome) (response : Response)
      → begin_session w fields path form f o ≡ rejected response
      → Stores P response
  begin_session-rejects form f anonymous response h =
      subst (Stores P) (rejected_inv refl h) (none-Stores P (redirect (codes "/auth/sign-in")) refl)
  begin_session-rejects form f (refused reason clear) response h =
      subst (Stores P) (rejected_inv refl h) (none-Stores P (redirect (codes "/auth/sign-in")) refl)
  begin_session-rejects form f (active s generation) response h =
      begin_context-rejects _ form f _ response h

  begin_fields-rejects :
      (form : Form) (o : Option F) (response : Response)
      → begin_fields w fields path r form o ≡ rejected response
      → Stores P response
  begin_fields-rejects form none response h =
      subst (Stores P) (rejected_inv refl h) (back-Stores P w (path form) (codes "REQUEST_INVALID"))
  begin_fields-rejects form (some f) response h = begin_session-rejects form f _ response h

  begin_with-rejects :
      (response : Response) → begin_with w fields path r ≡ rejected response → Stores P response
  unfolding begin_with
  begin_with-rejects response h =
      elim (GuardResult-cases
        (guard_mutation w.decode w.environment w.now (session_binding_from w.decode w.now) r)) [
          | inr (inl (e, k)) ↦
              subst (Stores P) (rejected_inv refl (rw k at h))
                (none-Stores P (redirect (codes "/auth/sign-in")) refl)
          | inr (inr k) ↦ absurd (cc (rw k at h))
          | inl (form, b, k) ↦ begin_fields-rejects form _ response (rw k at h)
        ]

  pub run-Replies :
      (act : Scope → F → Context → Reply)
      → ((scope : Scope) (f : F) (context : Context)
          → IsReady w fields r scope f context
          → Replies P (act scope f context))
      → Replies P (run_outcome act (begin_with w fields path r))
  run-Replies act h = elim (Outcome-cases (begin_with w fields path r)) [
    | inl (scope, f, context, e) ↦
        rw e (h scope f context (begin_with-IsReady w fields path r scope f context e))
    | inr (inl (response, e)) ↦ rw e (begin_with-rejects response e)
    | inr (inr e) ↦ rw e tt
  ]

-- The token of this draft for some session.
abbrev pub IsTokenOf : World → PendingDraft → Text → Type 0
IsTokenOf w draft token =
    (id : Text) × (token
      ≡ serialize_pending_mutation w.environment.mac w.encode (pending_of w draft id))

module _ (w : World) (draft : PendingDraft) (context : Context) where
  pub unless_stale-Replies :
      (reply : Reply)
      → Replies (IsTokenOf w draft) reply
      → Replies (IsTokenOf w draft) (unless_stale (guard_freshness w context draft) reply)
  unless_stale-Replies reply h = elim (Option-cases (guard_freshness w context draft)) [
    | inl e ↦ rw e h
    | inr (response, e) ↦ rw e (λ token k.
        let (id, _, _, stored) = guard_freshness_inv w context draft e in
        (id, some_inv (sym k ∙ stored)))
  ]

  finish_failure-Stores :
      (path : Text) (e : _)
      → Stores (IsTokenOf w draft) (finish_failure w path (some draft) (some context) e)
  finish_failure-Stores path e token h =
      let (x, status, d, id, _, _, same, _, k) =
        finish_failure-stored w path (some draft) (some context) e token h in
      (
        id,
        k
            ∙ ap (λ d. serialize_pending_mutation w.environment.mac w.encode (pending_of w d id))
                (sym (some_inv same)),
      )

pub decide-Replies :
    (P : Text → Type 0) (api : Services) (refusal : Response)
    (finish : ConsoleResult Text → Response) (decision : Decision)
    → Stores P refusal
    → ((result : ConsoleResult Text) → Stores P (finish result))
    → Replies P (decide api refusal finish decision)
decide-Replies P api refusal finish refuse n h = n
decide-Replies P api refusal finish (submit none) n h = tt
decide-Replies P api refusal finish (submit (some call)) n h = h _

module _ (w : World) (context : Context) (path : Text) where
  pub finish_import-Stores :
      (f : CommandFields) (result : ConsoleResult Text)
      → Stores
          (IsTokenOf w (import_pending_mutation f path))
          (Imports.finish_import w path f context result)
  unfolding finish_import_command
  finish_import-Stores f (success code id) = back-Stores _ w _ _
  finish_import-Stores f (failure e) =
      finish_failure-Stores w (import_pending_mutation f path) context _ e

  pub finish_knowledge-Stores :
      (f : CommandFields) (result : ConsoleResult Text)
      → Stores
          (IsTokenOf w (knowledge_pending_mutation f path))
          (Memory.finish_knowledge w path f context result)
  unfolding finish_knowledge_command
  finish_knowledge-Stores f (success code id) = back-Stores _ w _ _
  finish_knowledge-Stores f (failure e) =
      finish_failure-Stores w (knowledge_pending_mutation f path) context _ e

  pub finish_membership-Stores :
      (f : Text × Form) (result : ConsoleResult Text)
      → Stores
          (IsTokenOf w (membership_pending_mutation f.1 path))
          (Settings.finish_membership w path f context result)
  unfolding finish_membership_command
  finish_membership-Stores f (success code id) = back-Stores _ w _ _
  finish_membership-Stores f (failure e) =
      finish_failure-Stores w (membership_pending_mutation f.1 path) context _ e

  pub finish_repository-Stores :
      (f : RepositoryFields) (result : ConsoleResult Text)
      → Stores
          (IsTokenOf w (repository_pending_mutation f.fields path))
          (Repositories.finish_repository w path f context result)
  unfolding finish_repository_command
  finish_repository-Stores f (success code id) = back-Stores _ w _ _
  finish_repository-Stores f (failure e) =
      finish_failure-Stores w (repository_pending_mutation f.fields path) context _ e
