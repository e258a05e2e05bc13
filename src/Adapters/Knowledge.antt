-- ===== src/Adapters/Knowledge.antt =====
-- The commands of src/server/adapters/knowledge.ts.
use evirion_engineering_memo.Prelude.{ℕ, List, [], ◌∷◌, Option, none, some, Text, codes}
use evirion_engineering_memo.Prelude.Json.{Json, text, number, object, Fields, no_fields, field}
use evirion_engineering_memo.Commands.{Scope}
use evirion_engineering_memo.Adapters.{
  Call, Part, literal, identifier, organization_path, command, checked, spread, optional_text,
  bounded,
}

-- knowledgePath of the adapter
abbrev pub knowledge_call_path : Scope → Text → Text → List Part
knowledge_call_path scope id suffix =
    organization_path scope (literal (codes "/knowledge/") ∷ identifier id ∷ literal suffix ∷ [])

-- bounded, spread into a body
abbrev pub spread_note : Option Text → Fields → Fields
spread_note note = spread (codes "note") (optional_text (bounded 2000 note))

-- KnowledgeExpectedPair
pub record ExpectedPair : Type 0 where
  pub review_sequence : ℕ
  pub lifecycle_version : ℕ

abbrev pub expected_pair : ExpectedPair → Fields → Fields
expected_pair pair fields =
    field (codes "expectedReviewSequence") (number pair.review_sequence)
      (field (codes "expectedLifecycleVersion") (number pair.lifecycle_version) fields)

abbrev pub edit_of : Option Json → Option Json
edit_of none = none
edit_of (some payload) = some (
    object (
      field (codes "schemaVersion") (text (codes "1")) (field (codes "payload") payload no_fields)))

-- What a review decision carries beside its tokens.
pub record Review : Type 0 where
  pub action : Text
  pub pair : ExpectedPair
  pub edit : Option Json
  pub reject_reason_code : Option Text
  pub issue_severity : Option Text
  pub note : Option Text

-- recordKnowledgeReview, without acknowledged evidence, which no route gives
abbrev pub record_knowledge_review : Scope → Text → Text → Review → Option Call
record_knowledge_review scope id key review =
    command scope (codes "POST") (knowledge_call_path scope id (codes "/reviews")) key (
      some (
        object (
          field (codes "action") (text review.action) (
            expected_pair review.pair (
              spread (codes "edit") (edit_of review.edit) (
                spread (codes "rejectReasonCode") (optional_text review.reject_reason_code) (
                  spread (codes "issueSeverity") (optional_text review.issue_severity)
                    (spread_note review.note no_fields))))))))

-- markKnowledgeActive
abbrev pub mark_knowledge_active : Scope → Text → Text → ExpectedPair → Option Text → Option Call
mark_knowledge_active scope id key pair note =
    command scope (codes "POST") (knowledge_call_path scope id (codes "/activate")) key
      (some (object (expected_pair pair (spread_note note no_fields))))

-- markKnowledgeSuperseded; the pairs are of the new object and of the old one.
abbrev pub mark_knowledge_superseded :
    Scope → Text → Text → Text → ExpectedPair → ExpectedPair → Option Text → Option Call
mark_knowledge_superseded scope id key new_id new_pair old_pair note = checked new_id (
    command scope (codes "POST") (knowledge_call_path scope id (codes "/supersede")) key (
      some (
        object (
          field (codes "newKnowledgeObjectId") (text new_id) (
            field (codes "expectedNewReviewSequence") (number new_pair.review_sequence) (
              field (codes "expectedNewLifecycleVersion") (number new_pair.lifecycle_version) (
                field (codes "expectedOldReviewSequence") (number old_pair.review_sequence) (
                  field (codes "expectedOldLifecycleVersion") (number old_pair.lifecycle_version)
                    (spread_note note no_fields)))))))))

abbrev correction_call :
    Scope → Text → Text → Text → Text → ExpectedPair → (Fields → Fields) → Option Text → Option Call
correction_call scope id key request_type reason_code pair relation note =
    command scope (codes "POST") (knowledge_call_path scope id (codes "/corrections")) key (
      some (
        object (
          field (codes "requestType") (text request_type) (
            field (codes "reasonCode") (text reason_code)
              (expected_pair pair (relation (spread_note note no_fields)))))))

-- requestKnowledgeCorrection; the relation carries its version.
abbrev pub request_knowledge_correction :
    Scope → Text → Text → Text → Text → ExpectedPair → Option (Text × ℕ) → Option Text → Option Call
request_knowledge_correction scope id key request_type reason_code pair none note =
    correction_call scope id key request_type reason_code pair (λ fields. fields) note
request_knowledge_correction scope id key request_type reason_code pair (some (relation, version))
      note =
    checked relation (
      correction_call scope id key request_type reason_code pair
        (λ fields.
          field (codes "knowledgeRelationId") (text relation)
            (field (codes "expectedRelationVersion") (number version) fields))
        note)
