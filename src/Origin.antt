-- ===== src/Origin.antt =====
-- src/lib/security/request-origin.ts: the boundary that every state-changing request clears, and the
-- safe redirect targets. Header names are in lower case, as `Headers` compares them; methods and
-- content types are ASCII.
pub mod Laws
use evirion_engineering_memo.Prelude.{
  ℕ, ◌+◌, ◌-◌, Bool, true, false, ◌&&◌, ◌||◌, not, List, [], ◌∷◌, ◌++◌, map, Option, none, some,
  Text, codes, text_eq, includes, starts_with, leb, ltb, ◌==◌, any, is_digit, if◌then◌else◌,
}

-- `headers.get(name)`, null as `none`.
abbrev pub Headers : Type 0
Headers = Text → Option Text

pub data Rejection : Type 0 where
  method_not_allowed missing_origin origin_mismatch host_mismatch : Rejection
  fetch_metadata_mismatch content_type_not_allowed untrusted_forwarding_header : Rejection

pub data OriginResult : Type 0 where
  allowed : Text → OriginResult
  rejected : Rejection → OriginResult

pub record MutationRequest : Type 0 where
  pub method : Text
  pub headers : Headers
  pub via_trusted_proxy : Bool

pub data EffectiveOrigin : Type 0 where
  origin : Text → EffectiveOrigin
  forged : EffectiveOrigin

unfoldable pub allowed_content_types : List Text
allowed_content_types =
    codes "application/json"
    ∷ codes "application/x-www-form-urlencoded"
    ∷ codes "multipart/form-data"
    ∷ []

unfoldable pub forwarding_headers : List Text
forwarding_headers =
    codes "forwarded"
    ∷ codes "x-forwarded-host"
    ∷ codes "x-forwarded-proto"
    ∷ codes "x-forwarded-port"
    ∷ codes "x-forwarded-for"
    ∷ []

unfoldable pub state_changing_methods : List Text
state_changing_methods = codes "POST" ∷ codes "PUT" ∷ codes "PATCH" ∷ codes "DELETE" ∷ []

unfoldable pub allowed_modes : List Text
allowed_modes = codes "cors" ∷ codes "same-origin" ∷ codes "navigate" ∷ []

abbrev pub is_lower : ℕ → Bool
is_lower c = leb b'a' c && leb c b'z'

abbrev pub is_upper : ℕ → Bool
is_upper c = leb b'A' c && leb c b'Z'

unfoldable pub to_upper_case : Text → Text
to_upper_case = map (λ c. if is_lower c then c - 32 else c)

unfoldable pub to_lower_case : Text → Text
to_lower_case = map (λ c. if is_upper c then c + 32 else c)

-- The white space of `trim`, of ASCII and Latin-1 and of the wider blocks.
unfoldable pub is_space : ℕ → Bool
is_space c =
    (leb 9 c && leb c 13)
    || c == 32
    || c == 160
    || c == 0x1680
    || (leb 0x2000 c && leb c 0x200a)
    || c == 0x2028
    || c == 0x2029
    || c == 0x202f
    || c == 0x205f
    || c == 0x3000
    || c == 0xfeff

unfoldable pub trim_start : Text → Text
trim_start [] = []
trim_start (c ∷ s) = if is_space c then trim_start s else c ∷ s

-- Drops a run of white space at the end.
unfoldable pub trim_end : Text → Text
trim_end [] = []
trim_end (c ∷ s) = elim (trim_end s) [ [] ↦ if is_space c then [] else c ∷ [] | d ∷ r ↦ c ∷ d ∷ r ]

unfoldable pub trim : Text → Text
unfolding trim_start trim_end
trim s = trim_end (trim_start s)

-- `value.split(separator)[0]`
unfoldable pub before : ℕ → Text → Text
before sep [] = []
before sep (c ∷ s) = if c == sep then [] else c ∷ before sep s

abbrev map_option : (Text → Text) → Option Text → Option Text
map_option f none = none
map_option f (some t) = some (f t)

-- baseContentType
unfoldable pub base_content_type : Option Text → Option Text
base_content_type value = map_option (λ t. to_lower_case (trim (before b';' t))) value

abbrev pub is_some : Option Text → Bool
is_some none = false
is_some (some _) = true

-- `a ?? b`
abbrev pub or_else : Option Text → Option Text → Option Text
or_else none b = b
or_else (some a) b = some a

abbrev pub or_text : Option Text → Text → Text
or_text none b = b
or_text (some a) b = a

-- `host ? { origin: … } : { forged: true }`
abbrev pub origin_of : Text → Option Text → EffectiveOrigin
origin_of protocol none = forged
origin_of protocol (some []) = forged
origin_of protocol (some (c ∷ host)) = origin (protocol ++ (codes "://" ++ (c ∷ host)))

-- deriveEffectiveOrigin
unfoldable pub derive_effective_origin : MutationRequest → EffectiveOrigin
derive_effective_origin r =
    if not r.via_trusted_proxy
    then if any (λ name. is_some (r.headers name)) forwarding_headers
      then forged
      else origin_of (codes "https") (r.headers (codes "host"))
    else origin_of (or_text (r.headers (codes "x-forwarded-proto")) (codes "https"))
        (or_else (r.headers (codes "x-forwarded-host")) (r.headers (codes "host")))

abbrev pub equals : Option Text → Text → Bool
equals none t = false
equals (some s) t = text_eq s t

abbrev pub mode_allowed : Option Text → Bool
mode_allowed none = true
mode_allowed (some m) = includes allowed_modes m

abbrev pub type_allowed : Option Text → Bool
type_allowed none = false
type_allowed (some t) = includes allowed_content_types t

-- The checks behind the effective origin.
unfoldable pub check_headers : Headers → Text → Text → OriginResult
check_headers headers canonical effective =
    if not (text_eq effective canonical)
    then rejected host_mismatch
    else if not (is_some (headers (codes "origin")))
    then rejected missing_origin
    else if not (equals (headers (codes "origin")) canonical)
    then rejected origin_mismatch
    else if not (equals (headers (codes "sec-fetch-site")) (codes "same-origin"))
    then rejected fetch_metadata_mismatch
    else if not (mode_allowed (headers (codes "sec-fetch-mode")))
    then rejected fetch_metadata_mismatch
    else if not (type_allowed (base_content_type (headers (codes "content-type"))))
    then rejected content_type_not_allowed
    else allowed effective

abbrev pub check_effective : Headers → Text → EffectiveOrigin → OriginResult
check_effective headers canonical forged = rejected untrusted_forwarding_header
check_effective headers canonical (origin o) = check_headers headers canonical o

-- assertMutationOrigin
unfoldable pub assert_mutation_origin : MutationRequest → Text → OriginResult
assert_mutation_origin r canonical =
    if not (includes state_changing_methods (to_upper_case r.method))
    then rejected method_not_allowed
    else check_effective r.headers canonical (derive_effective_origin r)

-- /[\u0000-\u001F\u007F]/
abbrev pub is_control : ℕ → Bool
is_control c = leb c 31 || c == 127

abbrev pub is_letter : ℕ → Bool
is_letter c = is_lower c || is_upper c

abbrev pub is_scheme_unit : ℕ → Bool
is_scheme_unit c = is_letter c || is_digit c || c == b'+' || c == b'.' || c == b'-'

-- [a-zA-Z0-9+.-]*: at the start of a text
unfoldable pub runs_to_colon : Text → Bool
runs_to_colon [] = false
runs_to_colon (c ∷ s) = c == b':' || (is_scheme_unit c && runs_to_colon s)

-- /^\/[a-zA-Z][a-zA-Z0-9+.-]*:/
unfoldable pub has_scheme : Text → Bool
has_scheme (p ∷ c ∷ s) = p == b'/' && is_letter c && runs_to_colon s
has_scheme _ = false

abbrev pub root : Text
root = b'/' ∷ []

-- resolveSafeRedirect; null and undefined are `none`.
unfoldable pub resolve_safe_redirect : Option Text → Text
resolve_safe_redirect none = root
resolve_safe_redirect (some []) = root
resolve_safe_redirect (some (c ∷ s)) =
    if not (starts_with (b'/' ∷ []) (c ∷ s))
    then root
    else if starts_with (b'/' ∷ b'/' ∷ []) (c ∷ s)
    then root
    else if starts_with (b'/' ∷ 92 ∷ []) (c ∷ s)
    then root
    else if any is_control (c ∷ s)
    then root
    else if has_scheme (c ∷ s)
    then root
    else c ∷ s
