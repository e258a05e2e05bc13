-- ===== src/Reauth/State.antt =====
-- src/lib/auth/reauthentication-state.ts and src/lib/auth/reauthentication-freshness.ts: the paused
-- mutation and the challenge in signed cookies. The HMAC, the text form of JSON (with base64url) and
-- `Date.parse` are arguments; times are in milliseconds.
pub mod Signed
use evirion_engineering_memo.Prelude.{
  ℕ, Bool, true, false, ◌||◌, not, List, [], ◌∷◌, ◌++◌, Option, none, some, Text, codes, text_eq,
  ltb, leb, split_last, if◌then◌else◌,
}
use evirion_engineering_memo.Prelude.Json.{
  Json, null, boolean, number, text, array, object, Fields, no_fields, field, get,
}
use evirion_engineering_memo.Csrf.{Mac}
use evirion_engineering_memo.Cookies.{CookieInstruction, cookie_attributes}
use evirion_engineering_memo.Guard.{Form, FormValue, string, file}
use evirion_engineering_memo.Reauth.{Gate, gate_name, ActionClass, action_class_name}

-- What is paused, without the session and the expiry.
pub record PendingDraft : Type 0 where
  pub return_path : Text
  pub mutation_path : Text
  pub fields : List (Text × Text)
  pub gate : Gate
  pub action_class : ActionClass

pub record PendingMutation : Type 0 where
  pub draft : PendingDraft
  pub provider_session_id : Text
  pub expires_at : ℕ

unfoldable pub pending_mutation_cookie : Text
pending_mutation_cookie = codes "__Host-console-reauth-pending"

unfoldable pub challenge_cookie : Text
challenge_cookie = codes "__Host-console-reauth-challenge"

abbrev pub max_age_seconds : ℕ
max_age_seconds = 600

-- encodeSigned
unfoldable pub encode_signed : Mac → (Json → Text) → Json → Text
encode_signed mac encode j = encode j ++ b'.' ∷ mac.sign (encode j)

-- What a read answers: nothing, a value, or an exception.
pub data Read : Type 0 where
  nothing raised : Read
  found : Json → Read

abbrev pub parsed : Option Json → Read
parsed none = nothing
parsed (some j) = found j

abbrev pub verified : Option Json → Option Bool → Read
verified j none = raised
verified j (some false) = nothing
verified j (some true) = parsed j

abbrev pub decode_parts : Mac → (Text → Option Json) → Option (Text × Text) → Read
decode_parts mac decode none = nothing
decode_parts mac decode (some ([], signature)) = nothing
decode_parts mac decode (some (c ∷ payload, signature)) =
    verified (decode (c ∷ payload)) (mac.verify signature (c ∷ payload))

-- decodeSigned
unfoldable pub decode_signed : Mac → (Text → Option Json) → Option Text → Read
decode_signed mac decode none = nothing
decode_signed mac decode (some token) = decode_parts mac decode (split_last b'.' token)

-- The text of a member that is one and is not empty, as the check of the session identifier.
abbrev pub named_session : Option Json → Option Text
named_session (some (text (c ∷ s))) = some (c ∷ s)
named_session _ = none

abbrev pub finite : Option Json → Option ℕ
finite (some (number n)) = some n
finite _ = none

abbrev pub other_session : Option Text → Text → Bool
other_session none id = false
other_session (some s) id = not (text_eq id s)

abbrev pub check_session : Option Text → Text → Json → Read
check_session session id j = if other_session session id then nothing else found j

abbrev pub check_pending : Option Text → ℕ → Json → Option Text → Option ℕ → Read
check_pending session now j (some id) (some expires_at) =
    if leb expires_at now then nothing else check_session session id j
check_pending session now j _ _ = nothing

-- The members of `null` cannot be read.
abbrev pub read_members : Option Text → ℕ → Json → Read
read_members session now null = raised
read_members session now j =
    check_pending session now j (named_session (get (codes "providerSessionId") j))
      (finite (get (codes "expiresAt") j))

abbrev pub and_read : Read → (Json → Read) → Read
and_read nothing k = nothing
and_read raised k = raised
and_read (found j) k = k j

-- readPendingMutation
unfoldable pub read_pending_mutation :
    Mac → (Text → Option Json) → Option Text → Option Text → ℕ → Read
read_pending_mutation mac decode token session now =
    and_read (decode_signed mac decode token) (read_members session now)

-- readStoredChallenge
abbrev pub read_stored_challenge : Mac → (Text → Option Json) → Option Text → Read
read_stored_challenge mac decode token = decode_signed mac decode token

abbrev pub fields_json : List (Text × Text) → Fields
fields_json [] = no_fields
fields_json ((k, v) ∷ fs) = field k (text v) (fields_json fs)

-- What JSON.stringify is given.
abbrev pub pending_json : PendingMutation → Json
pending_json p = object (
    field (codes "returnPath") (text p.draft.return_path) (
      field (codes "mutationPath") (text p.draft.mutation_path) (
        field (codes "gate") (text (gate_name p.draft.gate)) (
          field (codes "actionClass") (text (action_class_name p.draft.action_class)) (
            field (codes "fields") (object (fields_json p.draft.fields)) (
              field (codes "providerSessionId") (text p.provider_session_id)
                (field (codes "expiresAt") (number p.expires_at) no_fields)))))))

-- serializePendingMutation
unfoldable pub serialize_pending_mutation : Mac → (Json → Text) → PendingMutation → Text
serialize_pending_mutation mac encode p = encode_signed mac encode (pending_json p)

abbrev cleared_cookie : Text → CookieInstruction
cleared_cookie name = record {
  name = name;
  value = [];
  attributes = cookie_attributes;
  max_age = 0;
}

-- clearReauthenticationCookies
unfoldable pub clear_reauthentication_cookies : List CookieInstruction
clear_reauthentication_cookies =
    cleared_cookie pending_mutation_cookie ∷ cleared_cookie challenge_cookie ∷ []

-- `fields[key] = value`: a key keeps its place.
unfoldable pub set_field : Text → Text → List (Text × Text) → List (Text × Text)
set_field key value [] = (key, value) ∷ []
set_field key value ((k, v) ∷ fs) =
    if text_eq k key then (k, value) ∷ fs else (k, v) ∷ set_field key value fs

unfoldable pub collect_fields : List (Text × Text) → Form → List (Text × Text)
collect_fields fields [] = fields
collect_fields fields ((key, string value) ∷ form) =
    collect_fields (set_field key value fields) form
collect_fields fields ((key, file) ∷ form) = collect_fields fields form

-- formFieldsFrom, for names that are ordinary keys of an object: `__proto__` and names that read as array
-- indices, which a JavaScript object treats apart, are outside the model.
abbrev pub form_fields_from : Form → List (Text × Text)
form_fields_from form = collect_fields [] form

abbrev later : ℕ → Option ℕ → Bool
later now none = false
later now (some instant) = ltb now instant

-- isReauthenticationFresh; null and undefined are `none`, an instant that does not parse is `none`.
unfoldable pub is_reauthentication_fresh : (Text → Option ℕ) → Option Text → ℕ → Bool
is_reauthentication_fresh parse none now = false
is_reauthentication_fresh parse (some fresh_until) now = later now (parse fresh_until)
