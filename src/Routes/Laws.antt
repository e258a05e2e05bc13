-- ===== src/Routes/Laws.antt =====
-- What a call of the backend by a command route of src/app/api rests on.
use evirion_engineering_memo.Prelude.{
  ◌≡◌, ◌≢◌, ◌⊎◌, inl, inr, refl, subst, ap, ◌∙◌, true, ◌&&◌, [], ◌++◌, Option, none, some,
  Option-cases, Bool-cases, some_inv, and_inv, All, Text, codes,
}
use evirion_engineering_memo.Prelude.Json.{Json}
use evirion_engineering_memo.Session.{StoredSession, active, anonymous, refused, read_session}
use evirion_engineering_memo.Guard.{
  Form, Request, passed, threw, guard_mutation, session_binding_from,
}
use evirion_engineering_memo.ConsoleApi.{ConsoleResult, success, failure, is_uuid}
use evirion_engineering_memo.Reauth.State.{PendingDraft, is_reauthentication_fresh}
use evirion_engineering_memo.Commands.{
  World, Context, Response, Scope, Outcome, ready, rejected, crashed, begin_context, begin_session,
  begin_fields, begin_with, guard_freshness, form_text,
}
use evirion_engineering_memo.Commands.Resources.{
  CommandFields, RepositoryFields, Version, unversioned, refused_version, version, identified,
  versioned, import_fields, knowledge_fields, membership_fields, repository_fields,
}
use evirion_engineering_memo.Commands.Admission.{IsReady, GuardResult-cases, begin_with-IsReady}
use evirion_engineering_memo.Commands.Pauses.{guard_freshness_iff}
use evirion_engineering_memo.Adapters.{Call}
use evirion_engineering_memo.Adapters.Laws.{IsCall}
use evirion_engineering_memo.Routes.{
  Services, Reply, replied, raised, Decision, decide, unless_stale, run_outcome,
}
use evirion_engineering_memo.Routes.Sending.{Sends}

-- A call of the backend, behind the read of the session context, whose request passed the guard: it is below the organization that the backend
-- has named for the token of the session, it carries that token, and, unless it is a read, the key that
-- the form carries.
pub record IsAdmitted (w : World) (r : Request) (context : Context) (call : Call) : Type 0 where
  pub form : Form
  pub binding : Json
  pub session : StoredSession
  pub generation : Text
  pub request_id : Text
  pub suffix : Text
  pub guarded :
      guard_mutation w.decode w.environment w.now (session_binding_from w.decode w.now) r
      ≡ passed form binding
  pub held : read_session w.decode r.cookies w.now ≡ active session generation
  pub projected : w.fetch_context session.access_token ≡ success context request_id
  pub below : call.path ≡ codes "/v1/organizations/" ++ (context.organization_id ++ suffix)
  pub token : call.access_token ≡ session.access_token
  pub keyed :
      ((call.method ≡ codes "GET") × (call.idempotency_key ≡ none))
      ⊎ (call.idempotency_key ≡ some (form_text (codes "idempotencyKey") form))

-- The session is fresh, or the backend has named none that could be stepped up.
abbrev pub IsFresh : World → Context → Type 0
IsFresh w context =
    (is_reauthentication_fresh w.parse_date context.fresh_until w.now_ms ≡ true)
    ⊎ ((context.session_id ≡ none) ⊎ (context.session_id ≡ some []))

abbrev pub IsFreshlyAdmitted : World → Request → Call → Type 0
IsFreshlyAdmitted w r call = (context : Context) × IsAdmitted w r context call × IsFresh w context

-- Every call is one of these, and only what the guard reads has thrown.
abbrev pub IsHandled : (Call → Type 0) → World → Request → Reply → Type 0
IsHandled P w r (replied calls response) = All P calls
IsHandled P w r (raised calls) =
    guard_mutation w.decode w.environment w.now (session_binding_from w.decode w.now) r ≡ threw

-- What the fields of a command are, given its form.
abbrev pub IsKeyed : Form → Text → Type 0
IsKeyed form key = (is_uuid key ≡ true) × (key ≡ form_text (codes "idempotencyKey") form)

identified-IsKeyed :
    (id : Text) (form : Form) (f : CommandFields)
    → identified id form ≡ some f
    → (is_uuid f.id ≡ true) × IsKeyed form f.idempotency_key
identified-IsKeyed id form f h =
    elim (Bool-cases (is_uuid id && is_uuid (form_text (codes "idempotencyKey") form))) [
      | inr bad ↦ absurd (cc (rw bad at h))
      | inl good ↦
          let (i, k) = and_inv _ _ good in
          let e = some_inv (rw good at h) in
          (
            subst (λ x. is_uuid (x.id) ≡ true) e i,
            subst (λ x. IsKeyed form x.idempotency_key) e (k, refl),
          )
    ]

pub import_fields-IsKeyed :
    (form : Form) (f : CommandFields)
    → import_fields form ≡ some f
    → (is_uuid f.id ≡ true) × IsKeyed form f.idempotency_key
unfolding import_fields
import_fields-IsKeyed form f h = identified-IsKeyed _ form f h

pub knowledge_fields-IsKeyed :
    (form : Form) (f : CommandFields)
    → knowledge_fields form ≡ some f
    → (is_uuid f.id ≡ true) × IsKeyed form f.idempotency_key
unfolding knowledge_fields
knowledge_fields-IsKeyed form f h = identified-IsKeyed _ form f h

pub membership_fields-IsKeyed :
    (form : Form) (f : Text × Form) → membership_fields form ≡ some f → IsKeyed form f.0
unfolding membership_fields
membership_fields-IsKeyed form f h =
    elim (Bool-cases (is_uuid (form_text (codes "idempotencyKey") form))) [
      | inr bad ↦ absurd (cc (rw bad at h))
      | inl good ↦ subst (λ x. IsKeyed form (x.0)) (some_inv (rw good at h)) (good, refl)
    ]

pub versioned_inv :
    (o : Option CommandFields) (v : Version) {f : RepositoryFields}
    → versioned o v ≡ some f
    → o ≡ some f.fields
versioned_inv none v h = absurd (cc)
versioned_inv (some g) refused_version h = absurd (cc)
versioned_inv (some g) unversioned h = ap (λ x. some x.fields) (some_inv h)
versioned_inv (some g) (version n) h = ap (λ x. some x.fields) (some_inv h)

pub repository_fields-IsKeyed :
    (w : World) (form : Form) (f : RepositoryFields)
    → repository_fields w form ≡ some f
    → (is_uuid f.fields.id ≡ true) × IsKeyed form f.fields.idempotency_key
unfolding repository_fields
repository_fields-IsKeyed w form f h = identified-IsKeyed _ form f.fields (versioned_inv _ _ h)

pub Outcome-cases :
    {F : Type 0} (o : Outcome F)
    → ((scope : Scope) × (f : F) × (context : Context) × (o ≡ ready scope f context))
      ⊎ (((response : Response) × (o ≡ rejected response)) ⊎ (o ≡ crashed))
Outcome-cases (ready scope f context) = inl (scope, f, context, refl)
Outcome-cases (rejected response) = inr (inl (response, refl))
Outcome-cases crashed = inr (inr refl)

module _ {F : Type 0} (w : World) (fields : Form → Option F) (path : Form → Text)
    (r : Request) where
  begin_context-total :
      (token : Text) (form : Form) (f : F) (answer : ConsoleResult Context)
      → begin_context w fields path token form f answer ≢ crashed
  begin_context-total token form f (success context id) h = cc
  begin_context-total token form f (failure e) h = cc

  begin_session-total :
      (form : Form) (f : F) (o : _) → begin_session w fields path form f o ≢ crashed
  begin_session-total form f anonymous h = cc
  begin_session-total form f (refused reason clear) h = cc
  begin_session-total form f (active s generation) h = begin_context-total _ form f _ h

  begin_fields-total : (form : Form) (o : Option F) → begin_fields w fields path r form o ≢ crashed
  begin_fields-total form none h = cc
  begin_fields-total form (some f) h = begin_session-total form f _ h

  -- A command crashes only where the guard throws.
  begin_with-crashed :
      begin_with w fields path r ≡ crashed
      → guard_mutation w.decode w.environment w.now (session_binding_from w.decode w.now) r ≡ threw
  unfolding begin_with
  begin_with-crashed h =
      elim (GuardResult-cases
        (guard_mutation w.decode w.environment w.now (session_binding_from w.decode w.now) r)) [
          | inr (inl (e, k)) ↦ absurd (cc (rw k at h))
          | inr (inr k) ↦ k
          | inl (form, b, k) ↦ absurd (begin_fields-total form _ (rw k at h))
        ]

  pub run-IsHandled :
      (P : Call → Type 0) (act : Scope → F → Context → Reply)
      → ((scope : Scope) (f : F) (context : Context)
          → IsReady w fields r scope f context
          → IsHandled P w r (act scope f context))
      → IsHandled P w r (run_outcome act (begin_with w fields path r))
  run-IsHandled P act h = elim (Outcome-cases (begin_with w fields path r)) [
    | inl (scope, f, context, e) ↦
        rw e (h scope f context (begin_with-IsReady w fields path r scope f context e))
    | inr (inl (response, e)) ↦ rw e tt
    | inr (inr e) ↦ rw e (begin_with-crashed e)
  ]

module _ {F : Type 0} {w : World} {fields : Form → Option F} {r : Request} {scope : Scope} {f : F}
    {context : Context} (a : IsReady w fields r scope f context) where
  -- A request of the scope of a ready command is admitted.
  pub IsReady-IsAdmitted :
      (call : Call) (key : Option Text)
      → IsCall scope key call
      → ((call.method ≡ codes "GET") × (key ≡ none))
        ⊎ (key ≡ some (form_text (codes "idempotencyKey") a.form))
      → IsAdmitted w r context call
  IsReady-IsAdmitted call key c keyed = record {
    form = a.form;
    binding = a.binding;
    session = a.session;
    generation = a.generation;
    request_id = a.request_id;
    suffix = c.suffix;
    guarded = a.guarded;
    held = a.held;
    projected = a.projected;
    below = c.below ∙ ap (λ o. codes "/v1/organizations/" ++ (o ++ c.suffix)) a.organization;
    token = c.token ∙ a.token;
    keyed = elim keyed [ inl (g, n) ↦ inl (g, c.keyed ∙ n) | inr k ↦ inr (c.keyed ∙ k) ];
  }

  pub decide-IsHandled :
      (P : Call → Type 0) (api : Services) (refusal : Response)
      (finish : ConsoleResult Text → Response) (decision : Decision) (key : Text)
      → Sends scope key decision
      → IsKeyed a.form key
      → ((call : Call) → IsAdmitted w r context call → P call)
      → IsHandled P w r (decide api refusal finish decision)
  decide-IsHandled P api refusal finish decision key sends (u, keyed) h = elim sends [
    | inl e ↦ rw e tt
    | inr (call, e, sent) ↦
        rw e (h call (IsReady-IsAdmitted call (some key) sent (inr (ap some keyed))), tt)
  ]

  pub unless_stale-IsHandled :
      (reply : Reply) (draft : PendingDraft)
      → (IsFresh w context → IsHandled (IsFreshlyAdmitted w r) w r reply)
      → IsHandled (IsFreshlyAdmitted w r) w r (unless_stale (guard_freshness w context draft) reply)
  unless_stale-IsHandled reply draft h = elim (Option-cases (guard_freshness w context draft)) [
    | inl e ↦ rw e (h ((guard_freshness_iff w context draft).0 e))
    | inr (response, e) ↦ rw e tt
  ]
