-- ===== src/Session.antt =====
-- src/lib/auth/session-broker.ts: the server-only session, read from and written to the cookies.
-- The text form of a session (JSON and base64url) and the random generation are arguments.
pub mod Laws
use evirion_engineering_memo.Prelude.{
  ℕ, ◌+◌, ◌-◌, min, Bool, true, false, List, [], ◌∷◌, ◌++◌, Option, none, some, Result, ok, err,
  Text, codes, leb, if◌then◌else◌,
}
use evirion_engineering_memo.Prelude.Json.{
  Json, null, number, text, object, Fields, no_fields, field, get_field,
}
use evirion_engineering_memo.Policy.{absolute_session_seconds}
use evirion_engineering_memo.Cookies.{
  CookieInstruction, Cookies, BudgetError, Rejection, ReadResult, absent, valid, rejected,
  session_cookie_base, clear_session_cookies,
}
use evirion_engineering_memo.Cookies.Serialize.{serialize_session_cookies}
use evirion_engineering_memo.Cookies.Parse.{parse_session_cookies}

pub record StoredSession : Type 0 where
  pub access_token : Text
  pub refresh_token : Text
  pub provider_session_id : Text
  pub access_token_expires_at : ℕ
  pub absolute_expires_at : ℕ

pub data Reason : Type 0 where
  cookies : Rejection → Reason
  is_expired malformed_session : Reason

pub data ReadOutcome : Type 0 where
  anonymous : ReadOutcome
  active : StoredSession → Text → ReadOutcome
  refused : Reason → List CookieInstruction → ReadOutcome

-- typeof value === "string" && value.length > 0
abbrev pub filled_text : Option Json → Option Text
filled_text (some (text (c ∷ s))) = some (c ∷ s)
filled_text _ = none

-- typeof value === "number" && Number.isFinite(value)
abbrev pub finite_number : Option Json → Option ℕ
finite_number (some (number n)) = some n
finite_number _ = none

abbrev and_then {ℓ κ} : {A : Type ℓ} {B : Type κ} → Option A → (A → Option B) → Option B
and_then none k = none
and_then (some a) k = k a

unfoldable pub session_fields : Fields → Option StoredSession
session_fields fs = and_then (filled_text (get_field (codes "accessToken") fs)) λ access.
    and_then (filled_text (get_field (codes "refreshToken") fs)) λ refresh.
      and_then (filled_text (get_field (codes "providerSessionId") fs)) λ provider.
        and_then (finite_number (get_field (codes "accessTokenExpiresAt") fs)) λ expires.
          and_then (finite_number (get_field (codes "absoluteExpiresAt") fs)) λ absolute.
            some (record {
              access_token = access;
              refresh_token = refresh;
              provider_session_id = provider;
              access_token_expires_at = expires;
              absolute_expires_at = absolute;
            })

-- isStoredSession, with the session that the check admits; `none` is what does not decode.
unfoldable pub stored_session : Option Json → Option StoredSession
stored_session (some (object fs)) = session_fields fs
stored_session _ = none

-- What JSON.stringify is given.
abbrev pub session_json : StoredSession → Json
session_json s = object (
    field (codes "accessToken") (text s.access_token) (
      field (codes "refreshToken") (text s.refresh_token) (
        field (codes "providerSessionId") (text s.provider_session_id) (
          field (codes "accessTokenExpiresAt") (number s.access_token_expires_at)
            (field (codes "absoluteExpiresAt") (number s.absolute_expires_at) no_fields)))))

-- clearSession
unfoldable pub clear_session : List CookieInstruction
clear_session = clear_session_cookies session_cookie_base

abbrev pub admit : Text → ℕ → Option StoredSession → ReadOutcome
admit generation now none = refused malformed_session clear_session
admit generation now (some s) =
    if leb s.absolute_expires_at now then refused is_expired clear_session else active s generation

-- readSession, by the decoding of a payload.
unfoldable pub read_session : (Text → Option Json) → Cookies → ℕ → ReadOutcome
read_session decode jar now = elim (parse_session_cookies session_cookie_base jar) [
  | absent ↦ anonymous
  | rejected r ↦ refused (cookies r) clear_session
  | valid payload generation ↦ admit generation now (stored_session (decode payload))
]

-- Math.max(0, Math.min(absoluteSessionSeconds, absoluteExpiresAt - now))
unfoldable pub session_max_age : StoredSession → ℕ → ℕ
session_max_age s now = min absolute_session_seconds (s.absolute_expires_at - now)

abbrev behind_clear :
    Result BudgetError (List CookieInstruction) → Result BudgetError (List CookieInstruction)
behind_clear (ok is) = ok (clear_session ++ is)
behind_clear (err e) = err e

-- writeSession, by the encoding of a session and a fresh generation.
unfoldable pub write_session :
    (StoredSession → Text) → Text → StoredSession → ℕ → Result BudgetError (List CookieInstruction)
write_session encode generation s now =
    behind_clear
      (serialize_session_cookies session_cookie_base (encode s) generation (session_max_age s now))

-- `accessTokenExpiresAt - now <= 60`, over integers
unfoldable pub access_token_needs_refresh : StoredSession → ℕ → Bool
access_token_needs_refresh s now = leb s.access_token_expires_at (now + 60)
