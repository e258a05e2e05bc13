-- ===== src/Cookies/Serialize.antt =====
-- serializeSessionCookies of src/lib/auth/session-cookies.ts, with the two header budgets.
use evirion_engineering_memo.Prelude.{
  ℕ, zero, suc, ◌+◌, ◌-◌, List, [], ◌∷◌, ◌++◌, map, ltb, leb, Result, ok, err, Text, codes, length,
  take, drop, decimal, byte_length, if◌then◌else◌,
}
use evirion_engineering_memo.Policy.{
  chunk_maximum, chunk_value_bytes, request_header_bytes, response_header_bytes,
}
use evirion_engineering_memo.Cookies.{
  CookieInstruction, Cookies, BudgetError, malformed_generation, prefix_over_budget,
  payload_over_budget, response_over_budget, request_over_budget, is_generation, chunk_name,
  cookie_attributes,
}

-- `${generation}.${index}.${total}.` with the total at its maximum
abbrev pub chunk_prefix : Text → ℕ → Text
chunk_prefix generation index =
    generation ++ b'.' ∷ (decimal index ++ b'.' ∷ (decimal chunk_maximum ++ b'.' ∷ []))

-- The loop: the rounds left, the index and the cursor. It returns the chunks and the last cursor.
unfoldable pub chunks_from : Text → Text → ℕ → ℕ → ℕ → Result BudgetError (List Text × ℕ)
chunks_from generation payload zero index cursor = ok ([], cursor)
chunks_from generation payload (suc rounds) index cursor =
    let prefix = chunk_prefix generation index in
    let capacity = chunk_value_bytes - byte_length prefix in
    let rest = chunks_from generation payload rounds (index + 1) (cursor + capacity) in
    if leb chunk_value_bytes (byte_length prefix) then err prefix_over_budget else elim rest [
      | ok (chunks, last) ↦ ok ((prefix ++ take capacity (drop cursor payload)) ∷ chunks, last)
      | err e ↦ err e
    ]

abbrev instruction : Text → ℕ → ℕ → Text → CookieInstruction
instruction base max_age index value = record {
  name = chunk_name base index;
  value = value;
  attributes = cookie_attributes;
  max_age = max_age;
}

abbrev pub instructions_from : Text → ℕ → ℕ → List Text → List CookieInstruction
instructions_from base max_age index [] = []
instructions_from base max_age index (value ∷ values) =
    instruction base max_age index value ∷ instructions_from base max_age (index + 1) values

abbrev pub cookie_entry : CookieInstruction → Text × Text
cookie_entry i = (i.name, i.value)

-- `Object.fromEntries` of what a browser sends back: here the names are distinct.
abbrev pub entries : List CookieInstruction → Cookies
entries instructions = map cookie_entry instructions

abbrev pub set_cookie_text : CookieInstruction → Text
set_cookie_text i =
    i.name
    ++ (b'='
        ∷ (i.value
            ++ (codes "; Max-Age="
                ++ (decimal i.max_age ++ codes "; Path=/; HttpOnly; Secure; SameSite=Lax"))))

-- The total of assertResponseHeaderBudget
abbrev pub response_bytes : List CookieInstruction → ℕ
response_bytes [] = 0
response_bytes (i ∷ is) = byte_length (set_cookie_text i) + response_bytes is

-- requestHeaderBytes
abbrev pub cookie_header_bytes : Cookies → ℕ
cookie_header_bytes [] = 0
cookie_header_bytes ((name, value) ∷ cs) =
    byte_length (name ++ b'=' ∷ (value ++ codes "; ")) + cookie_header_bytes cs

unfoldable pub assert_budgets : List CookieInstruction → Result BudgetError (List CookieInstruction)
assert_budgets instructions =
    if ltb response_header_bytes (response_bytes instructions)
    then err (response_over_budget (response_bytes instructions))
    else if ltb request_header_bytes (cookie_header_bytes (entries instructions))
    then err (request_over_budget (cookie_header_bytes (entries instructions)))
    else ok instructions

abbrev pub finish :
    Text
    → Text
    → ℕ
    → Result BudgetError (List Text × ℕ)
    → Result BudgetError (List CookieInstruction)
finish base payload max_age (err e) = err e
finish base payload max_age (ok (chunks, cursor)) =
    if ltb cursor (length payload)
    then err payload_over_budget
    else assert_budgets (instructions_from base max_age 0 chunks)

unfoldable pub serialize_session_cookies :
    Text → Text → Text → ℕ → Result BudgetError (List CookieInstruction)
serialize_session_cookies base payload generation max_age =
    if is_generation generation
    then finish base payload max_age (chunks_from generation payload chunk_maximum 0 0)
    else err malformed_generation

abbrev pub chunk_overhead : Text → ℕ → ℕ → ℕ
chunk_overhead base zero index = 0
chunk_overhead base (suc rounds) index =
    byte_length (
      chunk_name base index ++ b'=' ∷ (codes "gggggggg" ++ b'.' ∷ (decimal index ++ codes ".4.; ")))
    + chunk_overhead base rounds (index + 1)

-- maximumPayloadBytes, which no base of the source brings below 0
unfoldable pub maximum_payload_bytes : Text → ℕ
maximum_payload_bytes base = request_header_bytes - chunk_overhead base chunk_maximum 0
