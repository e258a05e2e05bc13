-- ===== src/Routes/Sending.antt =====
-- What each route of src/app/api sends: a request below the organization of its scope, or none.
use evirion_engineering_memo.Prelude.{
  ◌≡◌, Bool, refl, true, false, ◌||◌, not, ◌⊎◌, inl, inr, List, [], ◌∷◌, Option, none, some,
  Bool-cases, some_inv, subst, Text, codes, ℕ, text_eq,
}
use evirion_engineering_memo.Prelude.Json.{Json}
use evirion_engineering_memo.ConsoleApi.{is_uuid}
use evirion_engineering_memo.Guard.{Form, form_get}
use evirion_engineering_memo.Commands.{World, Scope, form_text}
use evirion_engineering_memo.Commands.Resources.{CommandFields, RepositoryFields}
use evirion_engineering_memo.Commands.Fields.{
  read_uuid, read_filled, read_relation, relation_of, versioned_relation,
}
use evirion_engineering_memo.Adapters.{Call, Part, organization_path, command}
use evirion_engineering_memo.Adapters.Imports.{ImportFilters}
use evirion_engineering_memo.Adapters.Knowledge.{ExpectedPair, Review, request_knowledge_correction}
use evirion_engineering_memo.Adapters.Laws.{Identified, IsCall, command-IsCall}
use evirion_engineering_memo.Routes.{Services, Decision, refuse, submit}
use evirion_engineering_memo.Routes.Imports
use evirion_engineering_memo.Routes.Memory
use evirion_engineering_memo.Routes.Settings
use evirion_engineering_memo.Routes.Repositories

-- A decision that refuses, or submits a request of this scope and key.
abbrev pub Sends : Scope → Text → Decision → Type 0
Sends scope key decision =
    (decision ≡ refuse)
    ⊎ ((call : Call) × (decision ≡ submit (some call)) × IsCall scope (some key) call)

read_uuid_inv :
    (name : Text) (form : Form) {id : Text} → read_uuid name form ≡ some id → is_uuid id ≡ true
unfolding read_uuid
read_uuid_inv name form h = elim (Bool-cases (is_uuid (form_text name form))) [
  | inl u ↦ subst (λ x. is_uuid x ≡ true) (some_inv (rw u at h)) u
  | inr bad ↦ absurd (cc (rw bad at h))
]

relation_of_inv :
    (id : Text) (o : Option ℕ) {relation : Text × ℕ}
    → relation_of id o ≡ some relation
    → is_uuid relation.0 ≡ true
relation_of_inv id none h = absurd (cc)
relation_of_inv id (some n) h = elim (Bool-cases (is_uuid id)) [
  | inl u ↦ subst (λ x. is_uuid (x.0) ≡ true) (some_inv (rw u at h)) u
  | inr bad ↦ absurd (cc (rw bad at h))
]

versioned_relation_inv :
    (id : Text) (o : Option Text) {relation : Text × ℕ}
    → versioned_relation id o ≡ some relation
    → is_uuid relation.0 ≡ true
versioned_relation_inv id none h = absurd (cc)
versioned_relation_inv id (some rest) h = relation_of_inv id _ h

relation_in_inv :
    (raw : Text) {relation : Text × ℕ}
    → Memory.relation_in raw ≡ some relation
    → is_uuid relation.0 ≡ true
unfolding read_relation
relation_in_inv [] h = absurd (cc)
relation_in_inv (c ∷ raw) h = versioned_relation_inv _ _ h

not_or_inv : (a b : Bool) → (not a || b) ≡ false → a ≡ true
not_or_inv true b h = refl
not_or_inv false b h = absurd (cc)

-- What an identifier of a form is once it has been read.
abbrev AreUuids : Option Text → Type 0
AreUuids o = (id : Text) → o ≡ some id → is_uuid id ≡ true

module _ (scope : Scope) (organization : is_uuid scope.organization_id ≡ true) where
  -- A command with checked identifiers sends.
  command-Sends :
      (method : Text) (suffix : List Part) (key : Text) (body : Option Json)
      → Identified suffix
      → is_uuid key ≡ true
      → Sends scope key (submit (command scope method (organization_path scope suffix) key body))
  command-Sends method suffix key body ids keyed =
      let (call, e, sent) = command-IsCall scope method suffix key body organization ids keyed in
      inr (call, rw e refl, sent)

  module _ (f : CommandFields) (u : is_uuid f.id ≡ true)
      (k : is_uuid f.idempotency_key ≡ true) where
    prepare_filters-Sends :
        (o : Option ImportFilters)
        → Sends scope f.idempotency_key (Imports.prepare_filters scope f o)
    prepare_filters-Sends none = inl refl
    prepare_filters-Sends (some filters) = command-Sends _ _ f.idempotency_key _ (u, tt) k

    pub prepare-Sends :
        (api : Services) → Sends scope f.idempotency_key (Imports.prepare_decision api scope f)
    prepare-Sends api = prepare_filters-Sends _

    approve_fields-Sends :
        (id status budget : Option Text)
        → AreUuids id
        → Sends scope f.idempotency_key (Imports.approve_fields scope f id status budget)
    approve_fields-Sends none status budget h = inl refl
    approve_fields-Sends (some id) none budget h = inl refl
    approve_fields-Sends (some id) (some status) none h = inl refl
    approve_fields-Sends (some id) (some status) (some budget) h =
        command-Sends _ _ f.idempotency_key _ (h id refl, tt) k

    pub approve-Sends :
        (api : Services) → Sends scope f.idempotency_key (Imports.approve_decision api scope f)
    approve-Sends api = approve_fields-Sends _ _ _ (λ id e. read_uuid_inv _ _ e)

    state_fields-Sends :
        (id status state : Option Text)
        → AreUuids id
        → Sends scope f.idempotency_key (Imports.state_fields scope f id status state)
    state_fields-Sends none status state h = inl refl
    state_fields-Sends (some id) none state h = inl refl
    state_fields-Sends (some id) (some status) none h = inl refl
    state_fields-Sends (some id) (some status) (some state) h =
        command-Sends _ _ f.idempotency_key _ (h id refl, tt) k

    pub set_state-Sends : Sends scope f.idempotency_key (Imports.state_decision scope f)
    set_state-Sends = state_fields-Sends _ _ _ (λ id e. read_uuid_inv _ _ e)

    retry_fields-Sends :
        (job : Text) (id : Option Text)
        → AreUuids id
        → Sends scope f.idempotency_key (Imports.retry_fields scope f job id)
    retry_fields-Sends job none h = inl refl
    retry_fields-Sends job (some id) h = elim (Bool-cases (is_uuid job)) [
      | inr bad ↦ inl (rw bad refl)
      | inl good ↦ rw good (command-Sends _ _ f.idempotency_key _ (h id refl, (good, tt)) k)
    ]

    pub retry-Sends : Sends scope f.idempotency_key (Imports.retry_decision scope f)
    retry-Sends = retry_fields-Sends _ _ (λ id e. read_uuid_inv _ _ e)

    activate_fields-Sends :
        (o : Option ExpectedPair) → Sends scope f.idempotency_key (Memory.activate_fields scope f o)
    activate_fields-Sends none = inl refl
    activate_fields-Sends (some pair) = command-Sends _ _ f.idempotency_key _ (u, tt) k

    pub activate-Sends : Sends scope f.idempotency_key (Memory.activate_decision scope f)
    activate-Sends = activate_fields-Sends _

    supersede_fields-Sends :
        (id : Text) (o n : Option ExpectedPair)
        → Sends scope f.idempotency_key (Memory.supersede_fields scope f id o n)
    supersede_fields-Sends id none n = inl refl
    supersede_fields-Sends id (some o) none = inl refl
    supersede_fields-Sends id (some o) (some n) =
        elim (Bool-cases (not (is_uuid id) || text_eq id f.id)) [
          | inl bad ↦ inl (rw bad refl)
          | inr good ↦
              rw (good, not_or_inv (is_uuid id) (text_eq id f.id) good)
                (command-Sends _ _ f.idempotency_key _ (u, tt) k)
        ]

    pub supersede-Sends : Sends scope f.idempotency_key (Memory.supersede_decision scope f)
    supersede-Sends = supersede_fields-Sends _ _ _

    correction_relation-Sends :
        (retracts : Bool) (request_type reason : Text) (pair : ExpectedPair) (remark : Option Text)
        (o : Option (Text × ℕ))
        → ((relation : Text × ℕ) → o ≡ some relation → is_uuid relation.0 ≡ true)
        → Sends scope f.idempotency_key (
            Memory.correction_relation retracts
              (λ relation. submit (
                request_knowledge_correction scope f.id f.idempotency_key request_type reason pair
                  relation remark))
              o)
    correction_relation-Sends true request_type reason pair remark none h = inl refl
    correction_relation-Sends true request_type reason pair remark (some (id, n)) h =
        rw (h (id, n) refl) (command-Sends _ _ f.idempotency_key _ (u, tt) k)
    correction_relation-Sends false request_type reason pair remark none h =
        command-Sends _ _ f.idempotency_key _ (u, tt) k
    correction_relation-Sends false request_type reason pair remark (some relation) h = inl refl

    correction_fields-Sends :
        (request_type reason : Option Text) (o : Option ExpectedPair)
        → Sends scope f.idempotency_key (Memory.correction_fields scope f request_type reason o)
    correction_fields-Sends none reason o = inl refl
    correction_fields-Sends (some t) none o = inl refl
    correction_fields-Sends (some t) (some reason) none = inl refl
    correction_fields-Sends (some t) (some reason) (some pair) =
        elim (Bool-cases (Memory.correction_note reason (read_filled (codes "note") f.form))) [
          | inr bad ↦ inl (rw bad refl)
          | inl good ↦
              rw good
                (correction_relation-Sends _ t reason pair _ _ (λ relation e. relation_in_inv _ e))
        ]

    pub correct-Sends : Sends scope f.idempotency_key (Memory.correction_decision scope f)
    correct-Sends = correction_fields-Sends _ _ _

    review_submit-Sends :
        (o : Option Review) → Sends scope f.idempotency_key (Memory.review_submit scope f o)
    review_submit-Sends none = inl refl
    review_submit-Sends (some r) = command-Sends _ _ f.idempotency_key _ (u, tt) k

    pub review-Sends : Sends scope f.idempotency_key (Memory.review_decision scope f)
    review-Sends = review_submit-Sends _

  module _ (f : Text × Form) (k : is_uuid f.0 ≡ true) (w : World) where
    create_fields-Sends :
        (email role : Option Text) → Sends scope f.0 (Settings.create_fields scope f.0 email role)
    create_fields-Sends none role = inl refl
    create_fields-Sends (some email) none = inl refl
    create_fields-Sends (some email) (some role) = command-Sends _ _ f.0 _ tt k

    pub create-Sends : Sends scope f.0 (Settings.create_decision scope f)
    create-Sends = create_fields-Sends _ _

    resend_fields-Sends :
        (id : Option Text) (version : Option ℕ)
        → AreUuids id
        → Sends scope f.0 (Settings.resend_fields scope f.0 id version)
    resend_fields-Sends none version h = inl refl
    resend_fields-Sends (some id) none h = inl refl
    resend_fields-Sends (some id) (some version) h = command-Sends _ _ f.0 _ (h id refl, tt) k

    pub resend-Sends : Sends scope f.0 (Settings.resend_decision w scope f)
    resend-Sends = resend_fields-Sends _ _ (λ id e. read_uuid_inv _ _ e)

    revoke_fields-Sends :
        (id : Option Text) (version : Option ℕ)
        → AreUuids id
        → Sends scope f.0 (Settings.revoke_fields scope f.0 id version)
    revoke_fields-Sends none version h = inl refl
    revoke_fields-Sends (some id) none h = inl refl
    revoke_fields-Sends (some id) (some version) h = command-Sends _ _ f.0 _ (h id refl, tt) k

    pub revoke-Sends : Sends scope f.0 (Settings.revoke_decision w scope f)
    revoke-Sends = revoke_fields-Sends _ _ (λ id e. read_uuid_inv _ _ e)

    update_fields-Sends :
        (action : Text) (id : Option Text) (version : Option ℕ) (role : Option Text)
        → AreUuids id
        → Sends scope f.0 (Settings.update_fields scope f.0 action id version role)
    update_fields-Sends action none version role h = inl refl
    update_fields-Sends action (some id) none role h = inl refl
    update_fields-Sends action (some id) (some version) none h = inl refl
    update_fields-Sends action (some id) (some version) (some role) h =
        elim (Bool-cases (text_eq action (codes "change_role"))) [
          | inr bad ↦ inl (rw bad refl)
          | inl good ↦ rw good (command-Sends _ _ f.0 _ (h id refl, tt) k)
        ]

    pub update-Sends : Sends scope f.0 (Settings.update_decision w scope f)
    update-Sends = update_fields-Sends _ _ _ _ (λ id e. read_uuid_inv _ _ e)

    pub offboarding-Sends : Sends scope f.0 (Settings.offboarding_decision scope f)
    offboarding-Sends =
        elim (Bool-cases
          (Settings.is_value (codes "true") (form_get (codes "confirmationAccepted") f.1))) [
            | inr bad ↦ inl (rw bad refl)
            | inl good ↦ rw good (command-Sends _ _ f.0 _ tt k)
          ]

  module _ (f : RepositoryFields) (u : is_uuid f.fields.id ≡ true)
      (k : is_uuid f.fields.idempotency_key ≡ true) where
    pub activate_repository-Sends :
        Sends scope f.fields.idempotency_key (Repositories.activate_decision scope f)
    activate_repository-Sends =
        elim (Bool-cases (
          Settings.is_value (codes "on") (form_get (codes "confirmationAccepted") f.fields.form))) [
            | inr bad ↦ inl (rw bad refl)
            | inl good ↦ rw good (command-Sends _ _ f.fields.idempotency_key _ (u, tt) k)
          ]

    disable_fields-Sends :
        (o : Option ℕ)
        → Sends scope f.fields.idempotency_key (Repositories.disable_fields scope f o)
    disable_fields-Sends none = inl refl
    disable_fields-Sends (some version) = command-Sends _ _ f.fields.idempotency_key _ (u, tt) k

    pub disable-Sends : Sends scope f.fields.idempotency_key (Repositories.disable_decision scope f)
    disable-Sends = disable_fields-Sends _

    change_fields-Sends :
        (requested : Text) (o : Option ℕ)
        → Sends scope f.fields.idempotency_key (Repositories.change_fields scope f requested o)
    change_fields-Sends requested none = inl refl
    change_fields-Sends requested (some version) = elim (Bool-cases (is_uuid requested)) [
      | inr bad ↦ inl (rw bad refl)
      | inl good ↦ rw good (command-Sends _ _ f.fields.idempotency_key _ (u, tt) k)
    ]

    pub request_change-Sends :
        Sends scope f.fields.idempotency_key (Repositories.change_decision scope f)
    request_change-Sends = change_fields-Sends _ _
