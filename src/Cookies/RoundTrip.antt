-- ===== src/Cookies/RoundTrip.antt =====
-- What serializeSessionCookies writes, parseSessionCookies reads back.

use evirion_engineering_memo.Prelude.{
  text_eq, ◌≢◌, inl, inr, ◌==◌, le→ltb-false, ℕ, ◌≤◌, ◌<◌, ◌≡◌, refl, ap, ◌∙◌, true, false, List,
  [], ◌∷◌, ◌++◌, none, some, ok, arith, Text, Bool-cases, Result-cases, text_eq_self, length,
  decimal, number_of, if◌then◌else◌,
}
use evirion_engineering_memo.Policy.{request_header_bytes}
use evirion_engineering_memo.Cookies.{
  ReadResult, rejected, malformed_payload, CookieInstruction, Cookies, valid, is_generation,
  chunk_name,
}
use evirion_engineering_memo.Cookies.Serialize.{
  chunk_prefix, instructions_from, entries, cookie_header_bytes, assert_budgets, finish,
  serialize_session_cookies,
}
use evirion_engineering_memo.Cookies.Parse.{
  lookup, is_slot_name, slot_suffix, add_slot, scan_slots, Slots, Chunk, check_chunk, read_chunks,
  has_slot, has_slots_from, sort_chunks, insert_chunk, join_bodies, reassemble, read_slots,
  parse_session_cookies, is_number,
}
use evirion_engineering_memo.Cookies.Prefix.{
  chunks_from_lem, is_slot_name-chunk_name, slot_suffix-chunk_name, read_chunk-prefix, chunk_of,
  chunk_at, four_chunks, join_pieces,
}

-- The cookies of a jar that a slot of the base may occupy.
abbrev pub slot_cookies : Text → Cookies → Cookies
slot_cookies base [] = []
slot_cookies base ((name, value) ∷ cs) =
    if is_slot_name base name then (name, value) ∷ slot_cookies base cs else slot_cookies base cs

scan-slot_cookies :
    (base : Text) (cs : Cookies) (present : Slots)
    → scan_slots base cs present ≡ scan_slots base (slot_cookies base cs) present
unfolding scan_slots
scan-slot_cookies base [] present = refl
scan-slot_cookies base ((name, value) ∷ cs) present = elim (Bool-cases (is_slot_name base name)) [
  | inr other ↦ rw (other, scan_slots) (scan-slot_cookies base cs present)
  | inl slot ↦ elim (Result-cases (add_slot (slot_suffix base name) value present)) [
    | inl (more, e) ↦
        rw (slot, scan_slots) (rw (slot, e, scan_slots) (scan-slot_cookies base cs more))
    | inr (x, e) ↦ rw (slot, scan_slots) (rw (slot, e, scan_slots) refl)
  ]
]

scan_one :
    (base value : Text) (index : ℕ) (cs : Cookies) (present : Slots) {more : Slots}
    → add_slot (decimal index) value present ≡ ok more
    → scan_slots base ((chunk_name base index, value) ∷ cs) present ≡ scan_slots base cs more
unfolding scan_slots
scan_one base value index cs present e =
    rw (is_slot_name-chunk_name base (decimal index), scan_slots)
      (rw (slot_suffix-chunk_name base (decimal index), scan_slots) (rw (e, scan_slots) refl))

abbrev four_entries : Text → Text → Text → Text → Text → Cookies
four_entries base a b c d =
    (chunk_name base 0, a)
    ∷ (chunk_name base 1, b)
    ∷ (chunk_name base 2, c)
    ∷ (chunk_name base 3, d)
    ∷ []

scan_four :
    (base a b c d : Text)
    → scan_slots base (four_entries base a b c d) [] ≡ ok ((0, a) ∷ (1, b) ∷ (2, c) ∷ (3, d) ∷ [])
unfolding add_slot is_number decimal number_of has_slot
scan_four base a b c d =
    scan_one base a 0 _ [] refl
    ∙ scan_one base b 1 _ ((0, a) ∷ []) refl
    ∙ scan_one base c 2 _ ((0, a) ∷ (1, b) ∷ []) refl
    ∙ scan_one base d 3 [] ((0, a) ∷ (1, b) ∷ (2, c) ∷ []) refl
    ∙ (unfold scan_slots in refl)

check_chunk_lem :
    (g : Text) (index : ℕ) (body : Text)
    → check_chunk index (some (chunk_of g index body)) ≡ ok (chunk_of g index body)
unfolding check_chunk
check_chunk_lem g index body = ground arith

read_chunks-cons :
    (g body : Text) (index : ℕ) (ps : Slots) {cs : List Chunk}
    → is_generation g ≡ true
    → index < 10
    → read_chunks ps ≡ ok cs
    → read_chunks ((index, chunk_prefix g index ++ body) ∷ ps) ≡ ok (chunk_of g index body ∷ cs)
unfolding read_chunks
read_chunks-cons g body index ps h lt e =
    rw (read_chunk-prefix g body index h lt, read_chunks)
      (rw (check_chunk_lem g index body, e, read_chunks) refl)

read_four :
    (g p q r s : Text)
    → is_generation g ≡ true
    → read_chunks (
        (0, chunk_prefix g 0 ++ p)
        ∷ (1, chunk_prefix g 1 ++ q)
        ∷ (2, chunk_prefix g 2 ++ r)
        ∷ (3, chunk_prefix g 3 ++ s)
        ∷ [])
      ≡ ok (chunk_of g 0 p ∷ chunk_of g 1 q ∷ chunk_of g 2 r ∷ chunk_of g 3 s ∷ [])
read_four g p q r s h = read_chunks-cons g p 0 _ h (omega arith) (
    read_chunks-cons g q 1 _ h (omega arith) (
      read_chunks-cons g r 2 _ h (omega arith)
        (read_chunks-cons g s 3 [] h (omega arith) (unfold read_chunks in refl))))

-- What reading back a written payload gives: the payload with its generation, unless it is empty.
abbrev pub read_back : Text → Text → ReadResult
read_back payload g = if length payload == 0 then rejected malformed_payload else valid payload g

-- Four chunks of one generation are the text that their bodies join to.
reassemble_four :
    (g p q r s : Text) (a b c d : Text)
    → reassemble
        ((0, a) ∷ (1, b) ∷ (2, c) ∷ (3, d) ∷ [])
        (chunk_of g 0 p ∷ chunk_of g 1 q ∷ chunk_of g 2 r ∷ chunk_of g 3 s ∷ [])
      ≡ read_back (p ++ (q ++ (r ++ (s ++ [])))) g
unfolding reassemble has_slots_from has_slot sort_chunks insert_chunk join_bodies
reassemble_four g p q r s a b c d = rw (text_eq_self g) refl

abbrev slots_of : Text → Text → Slots
slots_of g payload =
    (0, chunk_at g payload 0 0)
    ∷ (1, chunk_at g payload 1 3059)
    ∷ (2, chunk_at g payload 2 6118)
    ∷ (3, chunk_at g payload 3 9177)
    ∷ []

read_slots_four :
    (payload g : Text)
    → is_generation g ≡ true
    → length payload ≤ 12236
    → read_slots (slots_of g payload) none ≡ read_back payload g
unfolding read_slots
read_slots_four payload g h fits =
    rw (read_four g _ _ _ _ h, read_slots)
      (reassemble_four g _ _ _ _ _ _ _ _ ∙ ap (λ t. read_back t g) (join_pieces payload fits))

-- What a jar's slots hold when they are the four chunks of a payload.
parse_four :
    (base payload g : Text) (max_age : ℕ) (cookies : Cookies)
    → is_generation g ≡ true
    → length payload ≤ 12236
    → slot_cookies base cookies ≡ entries (instructions_from base max_age 0 (four_chunks g payload))
    → lookup base cookies ≡ none
    → cookie_header_bytes cookies ≤ request_header_bytes
    → parse_session_cookies base cookies ≡ read_back payload g
unfolding parse_session_cookies
parse_four base payload g max_age cookies h fits slots plain small =
    let scan : scan_slots base cookies [] ≡ ok (slots_of g payload) =
      scan-slot_cookies base cookies [] ∙ rw slots (scan_four base _ _ _ _) in
    rw (le→ltb-false _ _ small)
      (rw (scan, plain, parse_session_cookies) (read_slots_four payload g h fits))

-- What a payload is written as, whenever it is written.
pub record IsWritten (base payload g : Text) (max_age : ℕ) (is : List CookieInstruction)
    : Type 0 where
  pub well_formed : is_generation g ≡ true
  pub covered : length payload ≤ 12236
  pub chunked : is ≡ instructions_from base max_age 0 (four_chunks g payload)
  pub within : cookie_header_bytes (entries is) ≤ request_header_bytes

assert_budgets_inv :
    (is : List CookieInstruction) {js : List CookieInstruction}
    → assert_budgets is ≡ ok js
    → (js ≡ is) × (cookie_header_bytes (entries is) ≤ request_header_bytes)
unfolding assert_budgets
assert_budgets_inv is h = ground arith

finish_inv :
    (base payload : Text) (max_age : ℕ) (chunks : List Text) (cursor : ℕ)
    {is : List CookieInstruction}
    → finish base payload max_age (ok (chunks, cursor)) ≡ ok is
    → (length payload ≤ cursor) × (assert_budgets (instructions_from base max_age 0 chunks) ≡ ok is)
finish_inv base payload max_age chunks cursor h = ground arith

serialize-IsWritten :
    (base payload g : Text) (max_age : ℕ) {is : List CookieInstruction}
    → serialize_session_cookies base payload g max_age ≡ ok is
    → IsWritten base payload g max_age is
unfolding serialize_session_cookies
serialize-IsWritten base payload g max_age {is} h = elim (Bool-cases (is_generation g)) [
  | inr bad ↦ absurd (cc (rw bad at h))
  | inl good ↦
      let (covered, asserted) =
        finish_inv base payload max_age (four_chunks g payload) 12236
          (rw (good, chunks_from_lem g payload good) at h) in
      let (same, within) = assert_budgets_inv _ asserted in
      record { well_formed = good; covered = covered; chunked = same; within = rw same within }
]

nonempty : (payload : Text) → payload ≢ [] → (length payload == 0) ≡ false
nonempty [] n = absurd (n refl)
nonempty (x ∷ xs) n = ground arith

-- Every payload that serializeSessionCookies accepts is read back whole by parseSessionCookies, with
-- its generation, unless it is empty, in which case it is refused as malformed: from any jar whose slots
-- of the base are exactly the cookies written, in that order, with any other cookies before, between and
-- behind them, which has no unchunked cookie of the base and does not exceed the budget of the request
-- header.
pub parse-serialize :
    (base payload g : Text) (max_age : ℕ) (cookies : Cookies) {is : List CookieInstruction}
    → serialize_session_cookies base payload g max_age ≡ ok is
    → slot_cookies base cookies ≡ entries is
    → lookup base cookies ≡ none
    → cookie_header_bytes cookies ≤ request_header_bytes
    → parse_session_cookies base cookies ≡ read_back payload g
parse-serialize base payload g max_age cookies h slots plain small =
    let w = serialize-IsWritten base payload g max_age h in
    parse_four base payload g max_age cookies w.well_formed w.covered (slots ∙ ap entries w.chunked)
      plain small

pub parse-serialize-filled :
    (base payload g : Text) (max_age : ℕ) (cookies : Cookies) {is : List CookieInstruction}
    → payload ≢ []
    → serialize_session_cookies base payload g max_age ≡ ok is
    → slot_cookies base cookies ≡ entries is
    → lookup base cookies ≡ none
    → cookie_header_bytes cookies ≤ request_header_bytes
    → parse_session_cookies base cookies ≡ valid payload g
parse-serialize-filled base payload g max_age cookies n h slots plain small =
    parse-serialize base payload g max_age cookies h slots plain small
    ∙ rw (nonempty payload n) refl

slot_cookies-cons :
    (base value : Text) (index : ℕ) (cs : Cookies)
    → slot_cookies base ((chunk_name base index, value) ∷ cs)
      ≡ (chunk_name base index, value) ∷ slot_cookies base cs
slot_cookies-cons base value index cs = rw (is_slot_name-chunk_name base (decimal index)) refl

slot_cookies_four :
    (base a b c d : Text)
    → slot_cookies base (four_entries base a b c d) ≡ four_entries base a b c d
slot_cookies_four base a b c d = simp (slot_cookies-cons)

name-ne-base : (base s : Text) → text_eq (base ++ b'.' ∷ s) base ≡ false
unfolding text_eq
name-ne-base [] s = refl
name-ne-base (x ∷ xs) s = ground (arith, name-ne-base xs s)

lookup_four : (base a b c d : Text) → lookup base (four_entries base a b c d) ≡ none
unfolding lookup
lookup_four base a b c d =
    rw (name-ne-base base (decimal 0), name-ne-base base (decimal 1))
      (rw (name-ne-base base (decimal 2), name-ne-base base (decimal 3)))

-- The cookies that serializeSessionCookies writes, sent back alone, are read as its payload and its
-- generation, whenever it accepts a payload that is not empty.
pub parse-entries-serialize :
    (base payload g : Text) (max_age : ℕ) {is : List CookieInstruction}
    → payload ≢ []
    → serialize_session_cookies base payload g max_age ≡ ok is
    → parse_session_cookies base (entries is) ≡ valid payload g
parse-entries-serialize base payload g max_age {is} n h =
    let w = serialize-IsWritten base payload g max_age h in
    parse-serialize-filled base payload g max_age (entries is) n h
      (rw w.chunked (slot_cookies_four base _ _ _ _)) (rw w.chunked (lookup_four base _ _ _ _))
      w.within
