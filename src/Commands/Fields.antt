-- ===== src/Commands/Fields.antt =====
-- The form readers of import-command.ts and membership-command.ts of src/server/actions, of the
-- correction and review routes of src/app/api/memory, and the ranges of src/app/api/imports.
use evirion_engineering_memo.Prelude.{
  ℕ, Bool, false, ◌&&◌, ◌||◌, not, List, [], ◌∷◌, Option, none, some, Text, codes, includes, all,
  any, length, leb, ◌==◌, is_digit, number_of, split_last, if◌then◌else◌,
}
use evirion_engineering_memo.Prelude.Json.{Json, text, array, object, Fields, no_fields, field}
use evirion_engineering_memo.Origin.{trim, is_space, before}
use evirion_engineering_memo.Guard.{Form, FormValue, string, form_get}
use evirion_engineering_memo.ConsoleApi.{is_uuid}
use evirion_engineering_memo.Commands.{World, form_text}
use evirion_engineering_memo.Commands.Resources.{Version, version, parse_version}
use evirion_engineering_memo.Adapters.{elements}

-- `options.find((option) => option === raw)`
unfoldable pub find : List Text → Text → Option Text
find options raw = if includes options raw then some raw else none

-- `options.find((option) => option === form.get(name))`
abbrev pub find_value : List Text → Option FormValue → Option Text
find_value options (some (string s)) = find options s
find_value options _ = none

-- `isUuid(raw) ? raw : undefined`
unfoldable pub read_uuid : Text → Form → Option Text
read_uuid name form = if is_uuid (form_text name form) then some (form_text name form) else none

-- IMPORT_STATUSES
abbrev pub import_statuses : List Text
import_statuses =
    codes "PLANNING"
    ∷ codes "DISCOVERING"
    ∷ codes "AWAITING_APPROVAL"
    ∷ codes "PROCESSING"
    ∷ codes "PAUSED"
    ∷ codes "COMPLETED"
    ∷ codes "FAILED"
    ∷ codes "CANCELLED"
    ∷ []

-- readExpectedStatus
abbrev pub read_expected_status : Form → Option Text
read_expected_status form = find import_statuses (form_text (codes "expectedStatus") form)

-- readImportId
abbrev pub read_import_id : Form → Option Text
read_import_id = read_uuid (codes "importId")

-- readInvitationId
abbrev pub read_invitation_id : Form → Option Text
read_invitation_id = read_uuid (codes "invitationId")

-- readMembershipId
abbrev pub read_membership_id : Form → Option Text
read_membership_id = read_uuid (codes "membershipId")

-- readMembershipRole and readInvitationRole
abbrev pub read_membership_role : Form → Option Text
read_membership_role form =
    find (codes "admin" ∷ codes "reviewer" ∷ codes "viewer" ∷ []) (form_text (codes "role") form)

abbrev pub issued : Version → Option ℕ
issued (version n) = some n
issued _ = none

-- readExpectedVersion, with the parseVersion of membership-command.ts, where an absent one is refused
abbrev pub read_expected_version : World → Form → Option ℕ
read_expected_version w form = issued (parse_version w (form_get (codes "expectedVersion") form))

-- A dot with a unit behind it.
unfoldable pub has_dot : Text → Bool
has_dot [] = false
has_dot (c ∷ []) = false
has_dot (c ∷ d ∷ s) = c == b'.' || has_dot (d ∷ s)

abbrev pub is_domain : Text → Bool
is_domain [] = false
is_domain (c ∷ s) = has_dot s

abbrev pub is_mailbox : Option (Text × Text) → Bool
is_mailbox none = false
is_mailbox (some ([], domain)) = false
is_mailbox (some (c ∷ local, domain)) = not (any (λ x. x == b'@') (c ∷ local)) && is_domain domain

-- EMAIL.test: /^[^\s@]+@[^\s@]+\.[^\s@]+$/
unfoldable pub is_email : Text → Bool
is_email s = not (any is_space s) && is_mailbox (split_last b'@' s)

-- readInvitationEmail
unfoldable pub read_invitation_email : Form → Option Text
read_invitation_email form =
    if is_email (trim (form_text (codes "email") form))
    then some (trim (form_text (codes "email") form))
    else none

abbrev pub trimmed : Text → Form → Text
trimmed name form = trim (form_text name form)

-- `raw === "" ? undefined : raw`
abbrev pub filled : Text → Option Text
filled [] = none
filled (c ∷ s) = some (c ∷ s)

-- readOffboardingReason, and the note of the memory routes
abbrev pub read_filled : Text → Form → Option Text
read_filled name form = filled (trimmed name form)

-- The text behind the first separator, if there is one.
unfoldable pub after : ℕ → Text → Option Text
after sep [] = none
after sep (c ∷ s) = let rest = after sep s in if c == sep then some s else rest

-- /^\d{1,15}$/
unfoldable pub sequence_of : Text → Option ℕ
sequence_of s =
    if leb 1 (length s) && (leb (length s) 15 && all is_digit s) then some (number_of s) else none

abbrev pub relation_of : Text → Option ℕ → Option (Text × ℕ)
relation_of id none = none
relation_of id (some n) = if is_uuid id then some (id, n) else none

abbrev pub versioned_relation : Text → Option Text → Option (Text × ℕ)
versioned_relation id none = none
versioned_relation id (some rest) = relation_of id (sequence_of (before b':' rest))

-- readRelation
unfoldable pub read_relation : Text → Option (Text × ℕ)
read_relation raw = versioned_relation (before b':' raw) (after b':' raw)

-- `text.split("\n")`
unfoldable pub split_lines : Text → List Text
split_lines [] = [] ∷ []
split_lines (c ∷ s) = elim (split_lines s) [
  | [] ↦ (c ∷ []) ∷ []
  | line ∷ rest ↦ if c == 10 then [] ∷ line ∷ rest else (c ∷ line) ∷ rest
]

-- Trimmed entries, blank ones dropped.
unfoldable pub entries_of : List Text → List Text
entries_of [] = []
entries_of (line ∷ rest) = elim (trim line) [
  | [] ↦ entries_of rest
  | c ∷ s ↦ (c ∷ s) ∷ entries_of rest
]

-- lines
abbrev pub lines : Form → Text → List Text
lines form key = entries_of (split_lines (trimmed key form))

-- Fields that must not be blank, in front of the others.
unfoldable pub text_fields : Form → List Text → Option Fields → Option Fields
text_fields form [] rest = rest
text_fields form (key ∷ keys) rest = elim (trimmed key form) [
  | [] ↦ none
  | c ∷ s ↦ elim (text_fields form keys rest) [
    | none ↦ none
    | some fields ↦ some (field key (text (c ∷ s)) fields)
  ]
]

unfoldable pub list_fields : Form → List Text → Fields
list_fields form [] = no_fields
list_fields form (key ∷ keys) =
    field key (array (elements (lines form key))) (list_fields form keys)

-- TEXT_FIELDS, with the two fields that are carried through
abbrev pub text_keys : List Text
text_keys =
    codes "knowledgeType"
    ∷ codes "implementationStatus"
    ∷ codes "problem"
    ∷ codes "knowledge"
    ∷ codes "designRationale"
    ∷ codes "futureImpact"
    ∷ []

-- LIST_FIELDS
abbrev pub list_keys : List Text
list_keys =
    codes "documentedTradeoffs"
    ∷ codes "explicitAlternatives"
    ∷ codes "constraints"
    ∷ codes "invariants"
    ∷ codes "failureModes"
    ∷ codes "affectedSystems"
    ∷ codes "answerableQuestions"
    ∷ []

abbrev pub object_of : Option Fields → Option Json
object_of none = none
object_of (some fields) = some (object fields)

-- readEdit
unfoldable pub read_edit : Form → Option Json
read_edit form = object_of (text_fields form text_keys (some (list_fields form list_keys)))
