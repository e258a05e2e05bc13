-- ===== src/Landing.antt =====
-- src/lib/auth/authenticated-landing.ts and src/lib/auth/idle-window.ts.
pub mod Laws
use evirion_engineering_memo.Prelude.{
  ℕ, ◌-◌, ◌+◌, ◌/◌, max, Bool, true, false, ◌||◌, not, Option, none, some, Text, codes, text_eq,
  starts_with, leb, if◌then◌else◌,
}

unfoldable pub placeholder_root : Text
placeholder_root = codes "/"

unfoldable pub landing_page : Text
landing_page = codes "/onboarding"

unfoldable pub second_factor : Text
second_factor = codes "/auth/mfa/enroll"

-- isAuthPath
unfoldable pub is_auth_path : Text → Bool
is_auth_path pathname =
    starts_with (codes "/auth/") pathname || starts_with (codes "/api/") pathname

abbrev pub is_mode : Text → Option Text → Bool
is_mode m none = false
is_mode m (some t) = text_eq t m

-- landingForAuthenticatedReader
unfoldable pub landing_for_authenticated_reader : Text → Option Text → Bool → Option Text
landing_for_authenticated_reader pathname fetch_mode has_second_factor =
    if not (is_mode (codes "navigate") fetch_mode)
    then none
    else if is_auth_path pathname
    then none
    else if not has_second_factor
    then some second_factor
    else if text_eq pathname placeholder_root
    then some landing_page
    else none

pub data IdleState : Type 0 where
  active warning elapsed : IdleState

-- idleStateAt; `expiry - warning` is over integers, and no idle time is negative, so that a warning
-- longer than the window covers all of it, as the difference on ℕ, which stops at 0, says too.
unfoldable pub idle_state_at : ℕ → ℕ → ℕ → IdleState
idle_state_at idle_for expiry warning_seconds =
    if leb expiry idle_for
    then elapsed
    else if leb (expiry - warning_seconds) idle_for
    then warning
    else active

-- minutesRemaining: the larger of 1 and the minutes left, rounded up.
unfoldable pub minutes_remaining : ℕ → ℕ → ℕ
minutes_remaining idle_for expiry = max 1 (((expiry - idle_for) + 59) / 60)

-- heartbeatIsDue
unfoldable pub heartbeat_is_due : ℕ → ℕ → Bool
heartbeat_is_due since coalescing = leb coalescing since
