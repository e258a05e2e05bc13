-- ===== src/Policy.antt =====
-- The numbers of src/lib/auth/session-policy.ts, in seconds and bytes.
use evirion_engineering_memo.Prelude.{ℕ, ◌*◌}

-- SESSION_POLICY
abbrev pub absolute_session_seconds : ℕ
absolute_session_seconds = 8 * 3600

abbrev pub idle_expiry_seconds : ℕ
idle_expiry_seconds = 2 * 3600

abbrev pub idle_warning_seconds : ℕ
idle_warning_seconds = 5 * 60

abbrev pub email_otp_lifetime_seconds : ℕ
email_otp_lifetime_seconds = 10 * 60

abbrev pub touch_coalescing_seconds : ℕ
touch_coalescing_seconds = 60

-- COOKIE_BUDGET
abbrev pub chunk_maximum : ℕ
chunk_maximum = 4

abbrev pub chunk_value_bytes : ℕ
chunk_value_bytes = 3072

abbrev pub request_header_bytes : ℕ
request_header_bytes = 8192

abbrev pub response_header_bytes : ℕ
response_header_bytes = 16384
