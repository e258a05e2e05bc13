-- ===== src/Cookies/Parse.antt =====
-- parseSessionCookies of src/lib/auth/session-cookies.ts.
use evirion_engineering_memo.Prelude.{
  ℕ, zero, suc, ◌+◌, Bool, true, false, ◌&&◌, ◌||◌, not, List, [], ◌∷◌, ◌++◌, Option, none, some,
  ltb, leb, ◌==◌, Result, ok, err, Text, text_eq, starts_with, length, take, drop, all, is_digit,
  number_of, if◌then◌else◌,
}
use evirion_engineering_memo.Policy.{chunk_maximum, request_header_bytes}
use evirion_engineering_memo.Cookies.{
  Cookies, Rejection, unchunked_and_chunked_collision, missing_chunk, duplicate_chunk,
  excess_chunks, stale_higher_chunk, mixed_generation, corrupt_chunk, malformed_payload,
  request_header_over_budget, ReadResult, absent, valid, rejected, is_generation,
}
use evirion_engineering_memo.Cookies.Serialize.{cookie_header_bytes}

-- `cookies[name]`
unfoldable pub lookup : Text → Cookies → Option Text
lookup name [] = none
lookup name ((n, v) ∷ cs) = if text_eq n name then some v else lookup name cs

-- The Map `present`, in insertion order; `seen` holds its keys.
abbrev pub Slots : Type 0
Slots = List (ℕ × Text)

unfoldable pub has_slot : ℕ → Slots → Bool
has_slot k [] = false
has_slot k ((i, v) ∷ ps) = if i == k then true else has_slot k ps

-- /^\d+$/
unfoldable pub is_number : Text → Bool
is_number [] = false
is_number (c ∷ s) = all is_digit (c ∷ s)

abbrev pub is_slot_name : Text → Text → Bool
is_slot_name base name = starts_with (base ++ b'.' ∷ []) name

-- What follows the base and the dot.
abbrev pub slot_suffix : Text → Text → Text
slot_suffix base name = drop (suc (length base)) name

-- The body of the first loop, for a cookie whose name starts with the base and a dot.
unfoldable pub add_slot : Text → Text → Slots → Result Rejection Slots
add_slot suffix value present =
    if not (is_number suffix)
    then err corrupt_chunk
    else if leb chunk_maximum (number_of suffix)
    then err excess_chunks
    else if has_slot (number_of suffix) present
    then err duplicate_chunk
    else ok (present ++ (number_of suffix, value) ∷ [])

-- The first loop.
unfoldable pub scan_slots : Text → Cookies → Slots → Result Rejection Slots
scan_slots base [] present = ok present
scan_slots base ((name, value) ∷ cs) present = elim (is_slot_name base name) [
  | false ↦ scan_slots base cs present
  | true ↦ elim (add_slot (slot_suffix base name) value present) [
    | err e ↦ err e
    | ok more ↦ scan_slots base cs more
  ]
]

pub record Chunk : Type 0 where
  pub index : ℕ
  pub total : ℕ
  pub generation : Text
  pub body : Text

-- The groups behind the generation: `.d.d.`
unfoldable pub read_groups : Text → Text → Option Chunk
read_groups generation (p ∷ i ∷ q ∷ t ∷ r ∷ body) =
    if p == b'.' && is_digit i && q == b'.' && is_digit t && r == b'.'
    then some (record {
      index = number_of (i ∷ []);
      total = number_of (t ∷ []);
      generation = generation;
      body = body;
    })
    else none
read_groups generation _ = none

-- CHUNK_PREFIX_PATTERN.exec
unfoldable pub read_chunk : Text → Option Chunk
read_chunk value =
    if is_generation (take 8 value) then read_groups (take 8 value) (drop 8 value) else none

-- The body of the second loop.
unfoldable pub check_chunk : ℕ → Option Chunk → Result Rejection Chunk
check_chunk index none = err corrupt_chunk
check_chunk index (some c) =
    if not (c.index == index)
    then err corrupt_chunk
    else if ltb c.total 1 || ltb chunk_maximum c.total
    then err corrupt_chunk
    else ok c

-- The second loop.
unfoldable pub read_chunks : Slots → Result Rejection (List Chunk)
read_chunks [] = ok []
read_chunks ((index, value) ∷ ps) =
    let rest = read_chunks ps in
    elim (check_chunk index (read_chunk value)) [
      | err e ↦ err e
      | ok c ↦ elim rest [ err e ↦ err e | ok cs ↦ ok (c ∷ cs) ]
    ]

-- `new Set(…).size <= 1`, by the first element.
abbrev pub one_generation : List Chunk → Bool
one_generation [] = true
one_generation (c ∷ cs) = all (λ d. text_eq d.generation c.generation) cs

abbrev pub one_total : List Chunk → Bool
one_total [] = true
one_total (c ∷ cs) = all (λ d. d.total == c.total) cs

-- The third loop: `rounds` indices from `index` on.
unfoldable pub has_slots_from : ℕ → ℕ → Slots → Bool
has_slots_from zero index present = true
has_slots_from (suc rounds) index present =
    has_slot index present && has_slots_from rounds (index + 1) present

-- `toSorted` by index, which is stable.
unfoldable pub insert_chunk : Chunk → List Chunk → List Chunk
insert_chunk c [] = c ∷ []
insert_chunk c (d ∷ ds) = if leb c.index d.index then c ∷ d ∷ ds else d ∷ insert_chunk c ds

unfoldable pub sort_chunks : List Chunk → List Chunk
sort_chunks [] = []
sort_chunks (c ∷ cs) = insert_chunk c (sort_chunks cs)

-- `.map((chunk) => chunk.body).join("")`
unfoldable pub join_bodies : List Chunk → Text
join_bodies [] = []
join_bodies (c ∷ cs) = c.body ++ join_bodies cs

abbrev pub first_total : List Chunk → ℕ
first_total [] = 0
first_total (c ∷ cs) = c.total

abbrev pub first_generation : List Chunk → Text
first_generation [] = []
first_generation (c ∷ cs) = c.generation

-- What stands behind the second loop.
unfoldable pub reassemble : Slots → List Chunk → ReadResult
reassemble present parsed =
    if not (one_generation parsed)
    then rejected mixed_generation
    else if not (one_total parsed)
    then rejected mixed_generation
    else if ltb (first_total parsed) (length parsed)
    then rejected stale_higher_chunk
    else if ltb (length parsed) (first_total parsed)
    then rejected missing_chunk
    else if not (has_slots_from (first_total parsed) 0 present)
    then rejected missing_chunk
    else if length (join_bodies (sort_chunks parsed)) == 0
    then rejected malformed_payload
    else valid (join_bodies (sort_chunks parsed)) (first_generation parsed)

-- What stands between the two loops, by the slots found and the unchunked cookie.
unfoldable pub read_slots : Slots → Option Text → ReadResult
read_slots [] none = absent
read_slots [] (some _) = rejected corrupt_chunk
read_slots (p ∷ ps) (some _) = rejected unchunked_and_chunked_collision
read_slots (p ∷ ps) none = elim (read_chunks (p ∷ ps)) [
  | err e ↦ rejected e
  | ok parsed ↦ reassemble (p ∷ ps) parsed
]

unfoldable pub parse_session_cookies : Text → Cookies → ReadResult
unfolding read_slots
parse_session_cookies base cookies =
    if ltb request_header_bytes (cookie_header_bytes cookies)
    then rejected request_header_over_budget
    else elim (scan_slots base cookies []) [
      | err e ↦ rejected e
      | ok present ↦ read_slots present (lookup base cookies)
    ]
