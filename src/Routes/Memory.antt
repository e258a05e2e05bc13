-- ===== src/Routes/Memory.antt =====
-- src/app/api/memory: activate, supersede, corrections and reviews.
use evirion_engineering_memo.Prelude.{
  ℕ, Bool, true, false, ◌||◌, not, List, [], ◌∷◌, Option, none, some, Text, codes, text_eq,
  if◌then◌else◌,
}
use evirion_engineering_memo.Prelude.Json.{Json}
use evirion_engineering_memo.ConsoleApi.{ConsoleResult, is_uuid}
use evirion_engineering_memo.Guard.{Form, Request, form_get}
use evirion_engineering_memo.Commands.{
  World, Scope, Context, Response, back, guard_freshness, form_text,
}
use evirion_engineering_memo.Commands.Resources.{
  CommandFields, knowledge_path, begin_knowledge_command, knowledge_pending_mutation,
  finish_knowledge_command, read_expected_sequence,
}
use evirion_engineering_memo.Commands.Fields.{find_value, read_filled, read_relation, read_edit}
use evirion_engineering_memo.Adapters.Knowledge.{
  ExpectedPair, Review, record_knowledge_review, mark_knowledge_active, mark_knowledge_superseded,
  request_knowledge_correction,
}
use evirion_engineering_memo.Routes.{
  Services, Reply, Decision, refuse, submit, decide, unless_stale, run_outcome,
}

-- refuseKnowledgeCommand
abbrev pub refuse_knowledge_command : World → Text → Response
refuse_knowledge_command w id = back w (knowledge_path id) (codes "REQUEST_INVALID")

abbrev pub finish_knowledge : World → Text → CommandFields → Context → ConsoleResult Text → Response
finish_knowledge w path f context result =
    finish_knowledge_command w f.id result (some (knowledge_pending_mutation f path)) (some context)

abbrev pub finish_review : World → CommandFields → ConsoleResult Text → Response
finish_review w f result = finish_knowledge_command w f.id result none none

abbrev pub knowledge_act :
    World
    → Services
    → Text
    → (Scope → CommandFields → Decision)
    → Scope
    → CommandFields
    → Context
    → Reply
knowledge_act w api path decision scope f context =
    unless_stale (guard_freshness w context (knowledge_pending_mutation f path)) (
      decide api (refuse_knowledge_command w f.id) (finish_knowledge w path f context)
        (decision scope f))

abbrev pub knowledge_route :
    World → Services → Text → (Scope → CommandFields → Decision) → Request → Reply
knowledge_route w api path decision r =
    run_outcome (knowledge_act w api path decision) (begin_knowledge_command w r)

abbrev pub pair_of : Option ℕ → Option ℕ → Option ExpectedPair
pair_of (some review) (some lifecycle) =
    some (record { review_sequence = review; lifecycle_version = lifecycle })
pair_of _ _ = none

-- Both tokens, under these names.
abbrev pub read_pair : Form → Text → Text → Option ExpectedPair
read_pair form review lifecycle =
    pair_of (read_expected_sequence form review) (read_expected_sequence form lifecycle)

abbrev pub observed_pair : Form → Option ExpectedPair
observed_pair form =
    read_pair form (codes "expectedReviewSequence") (codes "expectedLifecycleVersion")

abbrev pub activate_fields : Scope → CommandFields → Option ExpectedPair → Decision
activate_fields scope f none = refuse
activate_fields scope f (some pair) =
    submit
      (mark_knowledge_active scope f.id f.idempotency_key pair (read_filled (codes "note") f.form))

abbrev pub activate_decision : Scope → CommandFields → Decision
activate_decision scope f = activate_fields scope f (observed_pair f.form)

-- POST of memory/activate
unfoldable pub activate : World → Services → Request → Reply
activate w api = knowledge_route w api (codes "/api/memory/activate") activate_decision

abbrev pub supersede_fields :
    Scope → CommandFields → Text → Option ExpectedPair → Option ExpectedPair → Decision
supersede_fields scope f new_id (some old_pair) (some new_pair) =
    if not (is_uuid new_id) || text_eq new_id f.id
    then refuse
    else submit (
        mark_knowledge_superseded scope f.id f.idempotency_key new_id new_pair old_pair
          (read_filled (codes "note") f.form))
supersede_fields scope f new_id _ _ = refuse

abbrev pub supersede_decision : Scope → CommandFields → Decision
supersede_decision scope f =
    supersede_fields scope f (form_text (codes "newKnowledgeObjectId") f.form)
      (read_pair f.form (codes "expectedOldReviewSequence") (codes "expectedOldLifecycleVersion"))
      (read_pair f.form (codes "expectedNewReviewSequence") (codes "expectedNewLifecycleVersion"))

-- POST of memory/supersede
unfoldable pub supersede : World → Services → Request → Reply
supersede w api = knowledge_route w api (codes "/api/memory/supersede") supersede_decision

-- TYPES of corrections
abbrev pub correction_types : List Text
correction_types =
    codes "RETRACT_SUPERSESSION"
    ∷ codes "WITHDRAW_ACTIVE_KNOWLEDGE"
    ∷ codes "RESTORE_UNRESOLVED"
    ∷ []

-- REASONS of corrections
abbrev pub correction_reasons : List Text
correction_reasons =
    codes "SUPERSESSION_ERRONEOUS"
    ∷ codes "KNOWLEDGE_NO_LONGER_TRUE"
    ∷ codes "KNOWLEDGE_MISATTRIBUTED"
    ∷ codes "OTHER"
    ∷ []

abbrev pub relation_in : Text → Option (Text × ℕ)
relation_in [] = none
relation_in (c ∷ raw) = read_relation (c ∷ raw)

-- A relation belongs to a retraction, and to nothing else.
abbrev pub correction_relation :
    Bool → (Option (Text × ℕ) → Decision) → Option (Text × ℕ) → Decision
correction_relation true call none = refuse
correction_relation true call (some relation) = call (some relation)
correction_relation false call none = call none
correction_relation false call (some relation) = refuse

abbrev pub correction_note : Text → Option Text → Bool
correction_note reason none = not (text_eq reason (codes "OTHER"))
correction_note reason (some note) = true

abbrev pub correction_fields :
    Scope → CommandFields → Option Text → Option Text → Option ExpectedPair → Decision
correction_fields scope f (some request_type) (some reason) (some pair) =
    if correction_note reason (read_filled (codes "note") f.form)
    then correction_relation (text_eq request_type (codes "RETRACT_SUPERSESSION"))
        (λ relation. submit (
          request_knowledge_correction scope f.id f.idempotency_key request_type reason pair
            relation (read_filled (codes "note") f.form)))
        (relation_in (form_text (codes "knowledgeRelationId") f.form))
    else refuse
correction_fields scope f _ _ _ = refuse

abbrev pub correction_decision : Scope → CommandFields → Decision
correction_decision scope f =
    correction_fields scope f (find_value correction_types (form_get (codes "requestType") f.form))
      (find_value correction_reasons (form_get (codes "reasonCode") f.form)) (observed_pair f.form)

-- POST of memory/corrections
unfoldable pub correct : World → Services → Request → Reply
correct w api = knowledge_route w api (codes "/api/memory/corrections") correction_decision

-- ACTIONS of reviews
abbrev pub review_actions : List Text
review_actions =
    codes "APPROVE"
    ∷ codes "EDIT"
    ∷ codes "USER_REJECT"
    ∷ codes "REVERT_TO_ORIGINAL_AND_APPROVE"
    ∷ []

-- REASONS of reviews
abbrev pub reject_reasons : List Text
reject_reasons =
    codes "INCORRECT"
    ∷ codes "NOT_DURABLE"
    ∷ codes "UNSUPPORTED"
    ∷ codes "TOO_VAGUE"
    ∷ codes "DUPLICATE"
    ∷ codes "OUTDATED"
    ∷ codes "OTHER"
    ∷ []

-- SEVERITIES
abbrev pub severities : List Text
severities = codes "NONE" ∷ codes "MINOR" ∷ codes "MAJOR" ∷ codes "CRITICAL" ∷ []

-- A field that only some actions have, and that these must have: `none` refuses.
abbrev pub required {ℓ} : {A : Type ℓ} → Bool → Option A → Option (Option A)
required false value = some none
required true none = none
required true (some value) = some (some value)

abbrev pub review_of :
    Text
    → ExpectedPair
    → Option Text
    → Option (Option Json)
    → Option (Option Text)
    → Option (Option Text)
    → Option Review
review_of action pair remark (some edit) (some reason) (some severity) = some (record {
  action = action;
  pair = pair;
  edit = edit;
  reject_reason_code = reason;
  issue_severity = severity;
  note = remark;
})
review_of action pair remark _ _ _ = none

abbrev pub review_fields : Form → Option Text → Option ExpectedPair → Option Review
review_fields form (some action) (some pair) =
    let edits = text_eq action (codes "EDIT") in
    let rejects = text_eq action (codes "USER_REJECT") in
    review_of action pair (read_filled (codes "note") form) (required edits (read_edit form))
      (required rejects (find_value reject_reasons (form_get (codes "rejectReasonCode") form)))
      (required (edits || rejects) (find_value severities (form_get (codes "issueSeverity") form)))
review_fields form _ _ = none

unfoldable pub read_review : Form → Option Review
read_review form =
    review_fields form (find_value review_actions (form_get (codes "action") form))
      (observed_pair form)

abbrev pub review_submit : Scope → CommandFields → Option Review → Decision
review_submit scope f none = refuse
review_submit scope f (some review) =
    submit (record_knowledge_review scope f.id f.idempotency_key review)

abbrev pub review_decision : Scope → CommandFields → Decision
review_decision scope f = review_submit scope f (read_review f.form)

abbrev pub review_act : World → Services → Scope → CommandFields → Context → Reply
review_act w api scope f context =
    decide api (refuse_knowledge_command w f.id) (finish_review w f) (review_decision scope f)

-- POST of memory/reviews, which asks for no fresh session
unfoldable pub review : World → Services → Request → Reply
review w api r = run_outcome (review_act w api) (begin_knowledge_command w r)
