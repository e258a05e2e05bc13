-- ===== src/Session/Laws.antt =====
-- Reading and writing of sessions (src/lib/auth/session-broker.ts).
use evirion_engineering_memo.Prelude.{
  take, drop, ap, ◌⊎◌, ◌∙◌, ℕ, ◌+◌, ◌≤◌, ◌<◌, ◌≡◌, refl, ◌≢◌, inl, inr, List, [], ◌++◌, none, some,
  ok, arith, Text, Option, Result-cases, text_eq,
}
use evirion_engineering_memo.Prelude.Json.{Json, get_field}
use evirion_engineering_memo.Policy.{absolute_session_seconds, request_header_bytes}
use evirion_engineering_memo.Cookies.{
  clear_session_cookies, Rejection, CookieInstruction, Cookies, ReadResult, absent, valid, rejected,
  session_cookie_base,
}
use evirion_engineering_memo.Cookies.Serialize.{
  serialize_session_cookies, entries, cookie_header_bytes,
}
use evirion_engineering_memo.Cookies.Parse.{parse_session_cookies, lookup}
use evirion_engineering_memo.Cookies.RoundTrip.{slot_cookies, parse-serialize-filled}
use evirion_engineering_memo.Session.{
  admit, StoredSession, active, stored_session, session_fields, session_json, read_session,
  write_session, session_max_age, clear_session,
}

pub stored_session-session_json :
    (s : StoredSession)
    → s.access_token ≢ []
    → s.refresh_token ≢ []
    → s.provider_session_id ≢ []
    → stored_session (some (session_json s)) ≡ some s
unfolding stored_session session_fields get_field text_eq
stored_session-session_json s a r p = ground arith

ReadResult-cases :
    (r : ReadResult)
    → ((p : Text) × (g : Text) × (r ≡ valid p g))
      ⊎ ((r ≡ absent) ⊎ ((x : Rejection) × (r ≡ rejected x)))
ReadResult-cases absent = inr (inl refl)
ReadResult-cases (valid p g) = inl (p, g, refl)
ReadResult-cases (rejected x) = inr (inr (x, refl))

admit_inv :
    (g g' : Text) (now : ℕ) (o : Option StoredSession) {s : StoredSession}
    → admit g now o ≡ active s g'
    → (g ≡ g') × (o ≡ some s) × (now < s.absolute_expires_at)
admit_inv g g' now none h = ground arith
admit_inv g g' now (some u) h = ground arith

-- What is behind an active session: the cookies were read whole, the payload decodes to an object
-- whose fields are the session, and its absolute expiry has not come.
pub read_session_active :
    (decode : Text → Option Json) (jar : Cookies) (now : ℕ) (s : StoredSession) (g : Text)
    → read_session decode jar now ≡ active s g
    → (payload : Text) × (parse_session_cookies session_cookie_base jar ≡ valid payload g)
      × (stored_session (decode payload) ≡ some s)
      × (now < s.absolute_expires_at)
unfolding read_session
read_session_active decode jar now s g h =
    elim (ReadResult-cases (parse_session_cookies session_cookie_base jar)) [
      | inr (inl e) ↦ absurd (cc (rw (e, read_session) at h))
      | inr (inr (x, e)) ↦ absurd (cc (rw (e, read_session) at h))
      | inl (p, g', e) ↦
          let (same, found, live) =
            admit_inv g' g now (stored_session (decode p)) (rw (e, read_session) at h) in
          (p, e ∙ ap (valid p) same, found, live)
    ]

write_session_inv :
    (encode : StoredSession → Text) (g : Text) (s : StoredSession) (now : ℕ)
    {is : List CookieInstruction}
    → write_session encode g s now ≡ ok is
    → (ws : List CookieInstruction) × (is ≡ clear_session ++ ws)
      × (serialize_session_cookies session_cookie_base (encode s) g (session_max_age s now) ≡ ok ws)
unfolding write_session
write_session_inv encode g s now h =
    elim (Result-cases
      (serialize_session_cookies session_cookie_base (encode s) g (session_max_age s now))) [
        | inl (ws, e) ↦ (ws, ground arith, e)
        | inr (x, e) ↦ ground arith
      ]

read_session_valid :
    (decode : Text → Option Json) (jar : Cookies) (now : ℕ) (s : StoredSession) (payload g : Text)
    → parse_session_cookies session_cookie_base jar ≡ valid payload g
    → stored_session (decode payload) ≡ some s
    → now < s.absolute_expires_at
    → read_session decode jar now ≡ active s g
unfolding read_session
read_session_valid decode jar now s payload g e k live = rw (e, read_session) (rw k (ground arith))

take-clear_session : (ws : List CookieInstruction) → take 5 (clear_session ++ ws) ≡ clear_session
unfolding clear_session clear_session_cookies
take-clear_session ws = refl

drop-clear_session : (ws : List CookieInstruction) → drop 5 (clear_session ++ ws) ≡ ws
unfolding clear_session clear_session_cookies
drop-clear_session ws = refl

-- A written session is read back. Let the decoding undo the encoding on this session, whose texts
-- are not empty, and let writeSession accept it. Then it first clears every bounded slot; and a jar
-- whose slots of the session base are the cookies that it sets behind these five, with no unchunked
-- session cookie and within the budget of the request header, reads as this very session under the
-- fresh generation at every time before its absolute expiry.
pub read-write_session :
    (encode : StoredSession → Text) (decode : Text → Option Json) (g : Text) (s : StoredSession)
    (now later : ℕ) (jar : Cookies) {is : List CookieInstruction}
    → decode (encode s) ≡ some (session_json s)
    → encode s ≢ []
    → s.access_token ≢ []
    → s.refresh_token ≢ []
    → s.provider_session_id ≢ []
    → later < s.absolute_expires_at
    → write_session encode g s now ≡ ok is
    → slot_cookies session_cookie_base jar ≡ entries (drop 5 is)
    → lookup session_cookie_base jar ≡ none
    → cookie_header_bytes jar ≤ request_header_bytes
    → (take 5 is ≡ clear_session) × (read_session decode jar later ≡ active s g)
read-write_session encode decode g s now later jar codec n a r p live h slots plain small =
    let (ws, cleared, written) = write_session_inv encode g s now h in
    (
      ap (take 5) cleared ∙ take-clear_session ws,
      read_session_valid decode jar later s (encode s) g
          (parse-serialize-filled session_cookie_base (encode s) g (session_max_age s now) jar n
            written
            (slots ∙ ap (λ x. entries (drop 5 x)) cleared ∙ ap entries (drop-clear_session ws))
            plain small)
          (rw codec (stored_session-session_json s a r p)) live,
    )

-- The cookies of a session live no longer than the session: never past its absolute expiry, when it
-- has not come, and never longer than the absolute session of the policy.
session_max_age_bounds :
    (s : StoredSession) (now : ℕ)
    → now ≤ s.absolute_expires_at
    → (now + session_max_age s now ≤ s.absolute_expires_at)
      × (session_max_age s now ≤ absolute_session_seconds)
unfolding session_max_age
session_max_age_bounds s now h = omega arith
