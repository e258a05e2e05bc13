-- ===== src/Examples/CookieRuns.antt =====
-- Runs of src/lib/auth/session-cookies.ts and src/lib/auth/session-broker.ts.
use evirion_engineering_memo.Prelude.{
  ◌≡◌, ◌≤◌, ◌↔◌, refl, true, List, [], ◌∷◌, ◌++◌, Option, none, some, ok, Text, codes, length, take,
  drop, text_eq, starts_with, decimal, byte_length, is_digit, arith,
}
use evirion_engineering_memo.Prelude.Json.{Json}
use evirion_engineering_memo.Policy.{request_header_bytes}
use evirion_engineering_memo.Cookies.{
  Cookies, CookieInstruction, valid, is_generation, is_word, session_cookie_base,
  clear_session_cookies, bounded_slot_names,
}
use evirion_engineering_memo.Cookies.Serialize.{
  entries, instructions_from, serialize_session_cookies, chunks_from, assert_budgets,
  maximum_payload_bytes, cookie_header_bytes,
}
use evirion_engineering_memo.Cookies.Parse.{parse_session_cookies, lookup}
use evirion_engineering_memo.Cookies.RoundTrip.{
  slot_cookies, parse-serialize, parse-serialize-filled, parse-entries-serialize,
}
use evirion_engineering_memo.Cookies.Sound.{IsWhole, parse-IsWhole}
use evirion_engineering_memo.Cookies.Capacity.{is_ok, serialize_fits_iff}
use evirion_engineering_memo.Session.{
  StoredSession, active, read_session, write_session, clear_session, session_json, session_max_age,
}
use evirion_engineering_memo.Session.Laws.{read-write_session}

abbrev base : Text
base = codes "b"

abbrev pub payload : Text
payload = codes "xy"

abbrev pub generation : Text
generation = codes "abcdefgh"

abbrev pub chunk_values : List Text
chunk_values =
    codes "abcdefgh.0.4.xy"
    ∷ codes "abcdefgh.1.4."
    ∷ codes "abcdefgh.2.4."
    ∷ codes "abcdefgh.3.4."
    ∷ []

abbrev written : List CookieInstruction
written = instructions_from base 60 0 chunk_values

written-ok : serialize_session_cookies base payload generation 60 ≡ ok written
unfolding serialize_session_cookies chunks_from assert_budgets is_generation is_word decimal
    byte_length
written-ok = refl

-- A browser sends the session among its other cookies.
abbrev jar : Cookies
jar = (codes "theme", codes "dark") ∷ entries written

jar-slots : slot_cookies base jar ≡ entries written
unfolding starts_with
jar-slots = refl

jar-plain : lookup base jar ≡ none
unfolding lookup text_eq
jar-plain = refl

jar-small : cookie_header_bytes jar ≤ request_header_bytes
unfolding byte_length decimal
jar-small = omega arith

parse-serialize_example : parse_session_cookies base jar ≡ valid payload generation
parse-serialize_example =
    parse-serialize base payload generation 60 jar written-ok jar-slots jar-plain jar-small

parse-IsWhole_example : IsWhole base (entries written) payload generation
parse-IsWhole_example =
    parse-IsWhole base (entries written) payload generation
      (parse-entries-serialize base payload generation 60 (cc) written-ok)

serialize_fits_iff_example :
    (is_ok (serialize_session_cookies base payload generation 60) ≡ true)
    ↔ (length payload ≤ maximum_payload_bytes base)
unfolding is_generation is_word is_digit
serialize_fits_iff_example =
    serialize_fits_iff base payload generation 60 (omega arith, tt) (omega arith)
      (omega arith, (omega arith, tt)) refl (omega arith)

abbrev pub sample : StoredSession
sample = record {
  access_token = codes "a";
  refresh_token = codes "r";
  provider_session_id = codes "p";
  access_token_expires_at = 900;
  absolute_expires_at = 1060;
}

abbrev decode : Text → Option Json
decode t = some (session_json sample)

abbrev encode : StoredSession → Text
encode s = payload

abbrev session_written : List CookieInstruction
session_written = clear_session ++ instructions_from session_cookie_base 60 0 chunk_values

session_written-ok : write_session encode generation sample 1000 ≡ ok session_written
unfolding write_session session_max_age serialize_session_cookies chunks_from assert_budgets
    is_generation is_word decimal byte_length session_cookie_base
session_written-ok = refl

abbrev pub session_jar : Cookies
session_jar =
    (codes "__Host-console-session-csrf", codes "body.sig")
    ∷ (codes "__Host-console-reauth-pending", codes "pend.sig")
    ∷ (codes "__Host-console-reauth-challenge", codes "chal.sig")
    ∷ entries (instructions_from session_cookie_base 60 0 chunk_values)

session_jar-slots : slot_cookies session_cookie_base session_jar ≡ entries (drop 5 session_written)
unfolding session_cookie_base starts_with clear_session clear_session_cookies bounded_slot_names
    decimal
session_jar-slots = refl

session_jar-plain : lookup session_cookie_base session_jar ≡ none
unfolding lookup text_eq session_cookie_base decimal
session_jar-plain = refl

session_jar-small : cookie_header_bytes session_jar ≤ request_header_bytes
unfolding byte_length session_cookie_base decimal
session_jar-small = omega arith

read-write_session_example :
    (take 5 session_written ≡ clear_session)
    × (read_session decode session_jar 1010 ≡ active sample generation)
read-write_session_example =
    read-write_session encode decode generation sample 1000 1010 session_jar refl (cc) (cc) (cc)
      (cc) (omega arith) session_written-ok session_jar-slots session_jar-plain session_jar-small

session_serialized :
    serialize_session_cookies session_cookie_base payload generation 60
    ≡ ok (instructions_from session_cookie_base 60 0 chunk_values)
unfolding serialize_session_cookies chunks_from assert_budgets is_generation is_word decimal
    byte_length session_cookie_base
session_serialized = refl

session_jar_slots :
    slot_cookies session_cookie_base session_jar
    ≡ entries (instructions_from session_cookie_base 60 0 chunk_values)
unfolding session_cookie_base starts_with decimal
session_jar_slots = refl

pub session_jar-valid :
    parse_session_cookies session_cookie_base session_jar ≡ valid payload generation
session_jar-valid =
    parse-serialize-filled session_cookie_base payload generation 60 session_jar (cc)
      session_serialized session_jar_slots session_jar-plain session_jar-small
