-- ===== src/Cookies.antt =====
-- src/lib/auth/session-cookies.ts: the `__Host-` cookies that carry a server-only session in at most
-- four chunks. This file has the names, the instructions and the shape of a chunk; `Serialize` and
-- `Parse` have the two directions.
pub mod Serialize
pub mod Parse
pub mod Prefix
pub mod Capacity
pub mod RoundTrip
pub mod Sound
use evirion_engineering_memo.Prelude.{
  ℕ, zero, suc, ◌+◌, Bool, true, false, ◌&&◌, ◌||◌, List, [], ◌∷◌, ◌++◌, map, leb, ◌==◌, Text,
  codes, length, all, is_digit, decimal,
}
use evirion_engineering_memo.Policy.{chunk_maximum}

unfoldable pub session_cookie_base : Text
session_cookie_base = codes "__Host-console-session"

unfoldable pub pre_auth_cookie_base : Text
pre_auth_cookie_base = codes "__Host-console-pre-auth"

pub record Attributes : Type 0 where
  pub http_only : Bool
  pub secure : Bool
  pub same_site : Text
  pub path : Text

-- COOKIE_ATTRIBUTES
unfoldable pub cookie_attributes : Attributes
cookie_attributes = record {
  http_only = true;
  secure = true;
  same_site = codes "lax";
  path = codes "/";
}

pub record CookieInstruction : Type 0 where
  pub name : Text
  pub value : Text
  pub attributes : Attributes
  pub max_age : ℕ

-- A record of cookies, as its entries in the order of `Object.entries`.
abbrev pub Cookies : Type 0
Cookies = List (Text × Text)

pub data Rejection : Type 0 where
  unchunked_and_chunked_collision missing_chunk duplicate_chunk excess_chunks : Rejection
  stale_higher_chunk mixed_generation corrupt_chunk malformed_payload : Rejection
  request_header_over_budget : Rejection

pub data ReadResult : Type 0 where
  absent : ReadResult
  valid : Text → Text → ReadResult
  rejected : Rejection → ReadResult

-- The messages of CookieBudgetError, with the numbers that they print.
pub data BudgetError : Type 0 where
  malformed_generation prefix_over_budget payload_over_budget : BudgetError
  response_over_budget request_over_budget : ℕ → BudgetError

-- [A-Za-z0-9_-]
unfoldable pub is_word : ℕ → Bool
is_word c =
    (leb b'A' c && leb c b'Z') || (leb b'a' c && leb c b'z') || is_digit c || c == b'_' || c == b'-'

-- GENERATION_PATTERN
unfoldable pub is_generation : Text → Bool
unfolding is_word
is_generation s = length s == 8 && all is_word s

-- chunkName
abbrev pub chunk_name : Text → ℕ → Text
chunk_name base index = base ++ b'.' ∷ decimal index

abbrev indices_from : ℕ → ℕ → List ℕ
indices_from zero n = []
indices_from (suc rounds) n = n ∷ indices_from rounds (n + 1)

-- boundedSlotNames
unfoldable pub bounded_slot_names : Text → List Text
bounded_slot_names base = base ∷ map (chunk_name base) (indices_from chunk_maximum 0)

abbrev cleared : Text → CookieInstruction
cleared name = record { name = name; value = []; attributes = cookie_attributes; max_age = 0 }

-- clearSessionCookies
unfoldable pub clear_session_cookies : Text → List CookieInstruction
unfolding bounded_slot_names
clear_session_cookies base = map cleared (bounded_slot_names base)
