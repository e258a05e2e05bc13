-- ===== src/Logout/Removals.antt =====
-- What it means that a response removes cookies, and which names there are, written out: the slots of
-- src/lib/auth/session-cookies.ts, the names of pre-auth-cookies.ts and those of reauthentication-state.ts.
use evirion_engineering_memo.Prelude.{
  ◌≡◌, ◌≢◌, refl, All, List, [], ◌∷◌, ◌++◌, none, Text, codes, text_eq, decimal,
}
use evirion_engineering_memo.Cookies.{
  CookieInstruction, session_cookie_base, clear_session_cookies, bounded_slot_names,
}
use evirion_engineering_memo.Session.{clear_session}
use evirion_engineering_memo.Guard.{pre_auth_csrf_cookie}
use evirion_engineering_memo.Reauth.State.{
  clear_reauthentication_cookies, pending_mutation_cookie, challenge_cookie,
}
use evirion_engineering_memo.Proxy.{pre_auth_transaction_cookie}
use evirion_engineering_memo.Logout.{
  cleared_cookies, clear_pre_auth_cookies, pre_auth_cookie_names, provider_effect_for,
}

abbrev pub names_of : List CookieInstruction → List Text
names_of [] = []
names_of (i ∷ is) = i.name ∷ names_of is

abbrev pub IsRemoval : CookieInstruction → Type 0
IsRemoval i = (i.value ≡ []) × (i.max_age ≡ 0)

-- The cookies remove these names, and nothing else is set.
abbrev pub Removes : List Text → List CookieInstruction → Type 0
Removes names cookies = (names_of cookies ≡ names) × All IsRemoval cookies

abbrev pub session_names : List Text
session_names =
    codes "__Host-console-session"
    ∷ codes "__Host-console-session.0"
    ∷ codes "__Host-console-session.1"
    ∷ codes "__Host-console-session.2"
    ∷ codes "__Host-console-session.3"
    ∷ []

abbrev pub pre_auth_names : List Text
pre_auth_names =
    codes "__Host-console-pre-auth-addr"
    ∷ codes "__Host-console-pre-auth-csrf"
    ∷ codes "__Host-console-pre-auth-eid"
    ∷ codes "__Host-console-pre-auth-inv"
    ∷ codes "__Host-console-pre-auth-txn"
    ∷ []

abbrev pub other_names : List Text
other_names =
    pre_auth_names
    ++ codes "__Host-console-reauth-pending" ∷ codes "__Host-console-reauth-challenge" ∷ []

pub clear_pre_auth_cookies-Removes : Removes pre_auth_names clear_pre_auth_cookies
unfolding pre_auth_cookie_names pre_auth_csrf_cookie pre_auth_transaction_cookie
clear_pre_auth_cookies-Removes =
    (refl, ((refl, refl), ((refl, refl), ((refl, refl), ((refl, refl), ((refl, refl), tt))))))

pub clear_session-Removes : Removes session_names clear_session
unfolding clear_session clear_session_cookies bounded_slot_names session_cookie_base decimal
clear_session-Removes =
    (refl, ((refl, refl), ((refl, refl), ((refl, refl), ((refl, refl), ((refl, refl), tt))))))

pub cleared_cookies-Removes : Removes (session_names ++ other_names) cleared_cookies
unfolding clear_session clear_session_cookies bounded_slot_names session_cookie_base decimal
    pre_auth_cookie_names pre_auth_csrf_cookie pre_auth_transaction_cookie
    clear_reauthentication_cookies pending_mutation_cookie challenge_cookie
cleared_cookies-Removes = (
  refl,
  (
    (refl, refl),
    (
      (refl, refl),
      (
        (refl, refl),
        (
          (refl, refl),
          (
            (refl, refl),
            (
              (refl, refl),
              (
                (refl, refl),
                ((refl, refl), ((refl, refl), ((refl, refl), ((refl, refl), ((refl, refl), tt))))),
              ),
            ),
          ),
        ),
      ),
    ),
  ),
)

-- No text of the four selections.
abbrev pub IsUnknown : Text → Type 0
IsUnknown s =
    (s ≢ codes "current") × (s ≢ codes "others") × (s ≢ codes "all") × (s ≢ codes "selected")

pub provider_effect_for-IsUnknown : (s : Text) → provider_effect_for s ≡ none → IsUnknown s
unfolding provider_effect_for text_eq
provider_effect_for-IsUnknown s h =
    (λ e. cc (rw e at h), λ e. cc (rw e at h), λ e. cc (rw e at h), λ e. cc (rw e at h))
