-- ===== src/ConsoleApi.antt =====
-- src/server/adapters/console-api.ts: what the Console takes from an answer of the backend. The checks
-- that the contract generates are arguments, with the value that they admit; `none` is a refusal.
pub mod Laws
use evirion_engineering_memo.Prelude.{
  ℕ, Bool, true, false, ◌&&◌, ◌||◌, not, List, [], ◌∷◌, Option, none, some, Text, codes, text_eq,
  includes, leb, ◌==◌, is_digit, all, if◌then◌else◌,
}
use evirion_engineering_memo.Prelude.Json.{
  Json, null, boolean, number, text, array, object, Fields, get_field, keys,
}

-- The payload of a published failure.
pub record ConsoleError : Type 0 where
  pub code : Text
  pub retryable : Bool
  pub request_id : Text
  pub current_version : Option ℕ
  pub current_sequence : Option ℕ

pub data ConsoleFailure : Type 0 where
  error : ConsoleError → ℕ → ConsoleFailure
  unsupported : ℕ → ConsoleFailure
  unreachable : ConsoleFailure

pub data ConsoleResult {ℓ} (T : Type ℓ) : Type ℓ where
  success : T → Text → ConsoleResult T
  failure : ConsoleFailure → ConsoleResult T

-- What the transport does: it throws, or answers with a status and a body, `none` for no JSON.
pub data Answer : Type 0 where
  thrown : Answer
  answered : ℕ → Option Json → Answer

-- [0-9a-fA-F]
abbrev pub is_hex : ℕ → Bool
is_hex c = is_digit c || (leb b'a' c && leb c b'f') || (leb b'A' c && leb c b'F')

-- The places of a UUID: true for a hexadecimal digit, false for a dash.
unfoldable pub uuid_places : List Bool
uuid_places =
    true ∷ true ∷ true ∷ true ∷ true ∷ true ∷ true ∷ true ∷ false ∷ true ∷ true ∷ true ∷ true
    ∷ false ∷ true ∷ true ∷ true ∷ true ∷ false ∷ true ∷ true ∷ true ∷ true ∷ false ∷ true ∷ true
    ∷ true ∷ true ∷ true ∷ true ∷ true ∷ true ∷ true ∷ true ∷ true ∷ true ∷ []

abbrev pub fits_place : Bool → ℕ → Bool
fits_place true c = is_hex c
fits_place false c = c == b'-'

unfoldable pub fits : List Bool → Text → Bool
fits [] [] = true
fits [] (c ∷ s) = false
fits (p ∷ ps) [] = false
fits (p ∷ ps) (c ∷ s) = fits_place p c && fits ps s

-- UUID.test
unfoldable pub is_uuid : Text → Bool
is_uuid s = fits uuid_places s

abbrev pub is_text : Text → Option Json → Bool
is_text s (some (text t)) = text_eq t s
is_text s _ = false

-- The identifier of an envelope, if it is a UUID.
abbrev pub uuid_text : Option Json → Option Text
uuid_text (some (text t)) = if is_uuid t then some t else none
uuid_text _ = none

unfoldable pub envelope_keys : List Text
envelope_keys = codes "contractVersion" ∷ codes "data" ∷ codes "requestId" ∷ []

abbrev pub envelope_members : Option Json → Option Text → Option (Json × Text)
envelope_members (some content) (some request_id) = some (content, request_id)
envelope_members _ _ = none

abbrev pub envelope_of_fields : Fields → Option (Json × Text)
envelope_of_fields fs =
    if all (includes envelope_keys) (keys fs)
      && is_text (codes "1.0") (get_field (codes "contractVersion") fs)
    then envelope_members (get_field (codes "data") fs)
        (uuid_text (get_field (codes "requestId") fs))
    else none

-- isSuccessEnvelope, with the data and the identifier of the request.
unfoldable pub success_envelope : Json → Option (Json × Text)
success_envelope (object fs) = envelope_of_fields fs
success_envelope _ = none

module _ {ℓ} {T : Type ℓ} (console_error : Json → Option ConsoleError)
    (expected : Json → Option T) where
  abbrev pub error_answer : ℕ → Option ConsoleError → ConsoleResult T
  error_answer status (some e) = failure (error e status)
  error_answer status none = failure (unsupported status)

  abbrev pub expected_answer : ℕ → Text → Option T → ConsoleResult T
  expected_answer status request_id (some value) = success value request_id
  expected_answer status request_id none = failure (unsupported status)

  abbrev pub success_answer : ℕ → Option (Json × Text) → ConsoleResult T
  success_answer status (some (content, request_id)) =
      expected_answer status request_id (expected content)
  success_answer status none = failure (unsupported status)

  -- callConsoleApi, from what the transport did.
  unfoldable pub call_console_api : Answer → ConsoleResult T
  call_console_api thrown = failure unreachable
  call_console_api (answered status none) = failure (unsupported status)
  call_console_api (answered status (some payload)) =
      if leb 400 status
      then error_answer status (console_error payload)
      else success_answer status (success_envelope payload)
