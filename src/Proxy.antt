-- ===== src/Proxy.antt =====
-- src/proxy.ts, with the names of src/lib/auth/pre-auth-cookies.ts: what is done to every request before
-- its page. The security headers of the response and the content policy's nonce are left out; the provider's
-- refresh, the assurance level that an access token names, and random values are fields of an Edge.
pub mod Laws
use evirion_engineering_memo.Prelude.{
  ℕ, Bool, true, false, ◌&&◌, ◌||◌, not, List, [], ◌∷◌, ◌++◌, Option, none, some, Result, ok, err,
  Text, codes, text_eq, starts_with, ◌==◌, if◌then◌else◌,
}
use evirion_engineering_memo.Prelude.Json.{Json, text}
use evirion_engineering_memo.Policy.{email_otp_lifetime_seconds}
use evirion_engineering_memo.Cookies.{
  Cookies, CookieInstruction, BudgetError, cookie_attributes, session_cookie_base,
  pre_auth_cookie_base,
}
use evirion_engineering_memo.Cookies.Parse.{lookup}
use evirion_engineering_memo.Session.{
  StoredSession, ReadOutcome, active, anonymous, refused, read_session, write_session,
  access_token_needs_refresh,
}
use evirion_engineering_memo.Csrf.{Mac, pre_auth, issue_token, csrf_bound_session_id}
use evirion_engineering_memo.Origin.{is_some}
use evirion_engineering_memo.Guard.{
  issue_session_csrf_token, session_csrf_cookie, pre_auth_csrf_cookie,
}
use evirion_engineering_memo.Landing.{landing_for_authenticated_reader}

-- PRE_AUTH_TRANSACTION_COOKIE
unfoldable pub pre_auth_transaction_cookie : Text
pre_auth_transaction_cookie = codes "__Host-console-pre-auth-txn"

-- What a refresh issues.
pub record Issued : Type 0 where
  pub access_token : Text
  pub refresh_token : Text
  pub access_token_expires_at : ℕ

pub record Edge : Type 0 where
  pub mac : Mac
  pub encode : Json → Text
  pub decode : Text → Option Json
  pub encode_session : StoredSession → Text
  pub now : ℕ
  pub generation : Text
  pub transaction_id : Text
  pub proof_nonce : Text
  -- refresh, where its status is ok
  pub refresh : Text → Option Issued
  -- extractAal
  pub extract_aal : Text → Text

pub record Visit : Type 0 where
  pub path : Text
  pub cookies : Cookies
  pub cookie_header : Option Text
  pub fetch_mode : Option Text

-- A redirect, or the request goes on: with its Cookie header, and with the cookies that the response
-- sets for the renewal, the session's proof and the pre-auth transaction.
pub data Proxied : Type 0 where
  redirected : Text → Proxied
  forwarded : Option Text → List CookieInstruction → Option Text → Option (Text × Text) → Proxied
  failed : Proxied

-- `text.split("; ")`
unfoldable pub split_pairs : Text → List Text
split_pairs [] = [] ∷ []
split_pairs (c ∷ []) = (c ∷ []) ∷ []
split_pairs (c ∷ d ∷ s) =
    let after = split_pairs s in
    let next = split_pairs (d ∷ s) in
    if c == b';' && d == 32
    then [] ∷ after
    else elim next [ [] ↦ (c ∷ []) ∷ [] | pair ∷ rest ↦ (c ∷ pair) ∷ rest ]

-- `parts.filter(Boolean).join("; ")`
unfoldable pub join_parts : List Text → Text
join_parts [] = []
join_parts ([] ∷ parts) = join_parts parts
join_parts ((c ∷ part) ∷ parts) = elim (join_parts parts) [
  | [] ↦ c ∷ part
  | d ∷ rest ↦ (c ∷ part) ++ (codes "; " ++ (d ∷ rest))
]

abbrev pub pair_text : Text × Text → Text
pair_text (name, value) = name ++ b'=' ∷ value

abbrev pub or_empty : Option Text → Text
or_empty none = []
or_empty (some s) = s

abbrev pub pair_texts : List (Text × Text) → List Text
pair_texts [] = []
pair_texts (pair ∷ pairs) = pair_text pair ∷ pair_texts pairs

-- appendCookies
abbrev pub append_cookies : Option Text → List (Text × Text) → Text
append_cookies existing pairs = join_parts (or_empty existing ∷ pair_texts pairs)

-- The pairs that do not start with this prefix.
unfoldable pub without_prefix : Text → List Text → List Text
without_prefix prefix [] = []
without_prefix prefix (pair ∷ pairs) =
    let rest = without_prefix prefix pairs in if starts_with prefix pair then rest else pair ∷ rest

abbrev pub header_without : Text → Option Text → Text
header_without prefix existing =
    join_parts (without_prefix prefix (split_pairs (or_empty existing)))

-- withCookie
unfoldable pub with_cookie : Option Text → Text → Text → Text
with_cookie existing name value =
    append_cookies (some (header_without (name ++ b'=' ∷ []) existing)) ((name, value) ∷ [])

unfoldable pub written_pairs : List CookieInstruction → List (Text × Text)
written_pairs [] = []
written_pairs (i ∷ is) =
    let rest = written_pairs is in if text_eq i.value [] then rest else (i.name, i.value) ∷ rest

-- withSessionCookies
unfoldable pub with_session_cookies : Option Text → List CookieInstruction → Text
with_session_cookies existing instructions =
    append_cookies (some (header_without (session_cookie_base ++ b'.' ∷ []) existing))
      (written_pairs instructions)

-- renewIfDue: nothing is due or the provider refused, a renewed session, or writing it threw.
pub data Renewal : Type 0 where
  kept : Renewal
  renewed : StoredSession → List CookieInstruction → Renewal
  unwritten : Renewal

abbrev pub renewed_session : StoredSession → Issued → StoredSession
renewed_session s issued = record {
  access_token = issued.access_token;
  refresh_token = issued.refresh_token;
  provider_session_id = s.provider_session_id;
  access_token_expires_at = issued.access_token_expires_at;
  absolute_expires_at = s.absolute_expires_at;
}

abbrev pub written_renewal : StoredSession → Result BudgetError (List CookieInstruction) → Renewal
written_renewal s (ok instructions) = renewed s instructions
written_renewal s (err e) = unwritten

abbrev pub renewal_of : Edge → StoredSession → Option Issued → Renewal
renewal_of e s none = kept
renewal_of e s (some issued) =
    written_renewal (renewed_session s issued)
      (write_session e.encode_session e.generation (renewed_session s issued) e.now)

unfoldable pub renew_if_due : Edge → ReadOutcome → Renewal
renew_if_due e anonymous = kept
renew_if_due e (refused reason clear) = kept
renew_if_due e (active s generation) =
    if access_token_needs_refresh s e.now then renewal_of e s (e.refresh s.refresh_token) else kept

-- `renewal?.session ?? carried`, as the session that is active
abbrev pub live_session : ReadOutcome → Renewal → Option StoredSession
live_session carried (renewed s instructions) = some s
live_session (active s generation) _ = some s
live_session _ _ = none

abbrev pub renewal_header : Option Text → Renewal → Option Text
renewal_header header (renewed s instructions) = some (with_session_cookies header instructions)
renewal_header header _ = header

abbrev pub renewal_cookies : Renewal → List CookieInstruction
renewal_cookies (renewed s instructions) = instructions
renewal_cookies _ = []

module _ (e : Edge) (v : Visit) where
  abbrev pub needs_pre_auth : Bool
  needs_pre_auth =
      starts_with (codes "/auth/") v.path
      && not (is_some (lookup pre_auth_transaction_cookie v.cookies))

  -- The transaction and its proof, where they are minted.
  abbrev pub pre_auth_pair : Option (Text × Text)
  pre_auth_pair =
      if needs_pre_auth
      then some (
        e.transaction_id,
        issue_token e.mac e.encode e.proof_nonce (pre_auth e.transaction_id [] 1) e.now
            email_otp_lifetime_seconds,
      )
      else none

  abbrev pub pre_auth_header : Option (Text × Text) → Option Text
  pre_auth_header none = v.cookie_header
  pre_auth_header (some (transaction_id, proof)) = some (
      append_cookies v.cookie_header
        ((pre_auth_transaction_cookie, transaction_id) ∷ (pre_auth_csrf_cookie, proof) ∷ []))

  abbrev pub landing : Option StoredSession → Option Text
  landing none = none
  landing (some s) =
      landing_for_authenticated_reader v.path v.fetch_mode
        (not (text_eq (e.extract_aal s.access_token) (codes "aal1")))

  abbrev pub is_bound : StoredSession → Option Json → Bool
  is_bound s (some (text id)) = text_eq id s.provider_session_id
  is_bound s _ = false

  -- A proof for the session, where the one that is carried names another.
  abbrev pub session_proof : Option StoredSession → Option Text
  session_proof none = none
  session_proof (some s) =
      if starts_with (codes "/api/") v.path
        || is_bound s (csrf_bound_session_id e.decode (lookup session_csrf_cookie v.cookies))
      then none
      else some (issue_session_csrf_token e.mac e.encode e.proof_nonce e.now s.provider_session_id)

  abbrev pub proof_header : Option Text → Option Text → Option Text
  proof_header header none = header
  proof_header header (some proof) = some (with_cookie header session_csrf_cookie proof)

  abbrev pub go_on : Renewal → Option Text → Proxied
  go_on renewal proof =
      forwarded (proof_header (renewal_header (pre_auth_header pre_auth_pair) renewal) proof)
        (renewal_cookies renewal) proof pre_auth_pair

  abbrev pub land : Renewal → Option StoredSession → Option Text → Proxied
  land renewal session (some location) = redirected location
  land renewal session none = go_on renewal (session_proof session)

  abbrev pub visit : ReadOutcome → Renewal → Proxied
  visit carried unwritten = failed
  visit carried kept = land kept (live_session carried kept) (landing (live_session carried kept))
  visit carried (renewed s instructions) = land (renewed s instructions) (some s) (landing (some s))

  -- proxy
  unfoldable pub proxy : Proxied
  proxy =
      let carried = read_session e.decode v.cookies e.now in visit carried (renew_if_due e carried)
