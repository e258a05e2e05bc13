-- ===== src/Landing/Laws.antt =====
-- No redirect of src/lib/auth/authenticated-landing.ts leads to another one.
use evirion_engineering_memo.Prelude.{
  some_inv, ℕ, ◌+◌, ◌-◌, ◌*◌, ◌/◌, ◌≡◌, ◌≤◌, ◌<◌, ◌↔◌, refl, inl, inr, subst, sym, Bool, true,
  Option, none, some, Bool-cases, Text, codes, text_eq, starts_with, arith,
}
use evirion_engineering_memo.Landing.{
  placeholder_root, landing_page, second_factor, is_auth_path, is_mode,
  landing_for_authenticated_reader, active, warning, elapsed, idle_state_at, minutes_remaining,
}

second_factor-stays :
    (mode : Option Text) (b : Bool) → landing_for_authenticated_reader second_factor mode b ≡ none
unfolding landing_for_authenticated_reader is_auth_path second_factor starts_with
second_factor-stays mode b = elim (Bool-cases (is_mode (codes "navigate") mode)) [
  | inl go ↦ rw go refl
  | inr stay ↦ rw stay refl
]

landing_page-stays :
    (mode : Option Text) → landing_for_authenticated_reader landing_page mode true ≡ none
unfolding landing_for_authenticated_reader is_auth_path landing_page placeholder_root starts_with
    text_eq
landing_page-stays mode = elim (Bool-cases (is_mode (codes "navigate") mode)) [
  | inl go ↦ rw go refl
  | inr stay ↦ rw stay refl
]

-- A reader who is redirected is not redirected again from where the redirect leads, whatever the fetch
-- mode of the next request is and with the same second factor.
landing_for_authenticated_reader_once :
    (path : Text) (mode later : Option Text) (factor : Bool) (target : Text)
    → landing_for_authenticated_reader path mode factor ≡ some target
    → landing_for_authenticated_reader target later factor ≡ none
unfolding landing_for_authenticated_reader
landing_for_authenticated_reader_once path mode later factor target h =
    elim (Bool-cases (is_mode (codes "navigate") mode)) [
      | inr stay ↦ absurd (cc (rw stay at h))
      | inl go ↦ elim (Bool-cases (is_auth_path path)) [
        | inl auth ↦ absurd (cc (rw (go, auth) at h))
        | inr other ↦ elim (Bool-cases factor) [
          | inr bare ↦
              subst (λ t. landing_for_authenticated_reader t later factor ≡ none)
                (some_inv (rw (go, other, bare) at h)) (second_factor-stays later factor)
          | inl proved ↦ elim (Bool-cases (text_eq path placeholder_root)) [
            | inr elsewhere ↦ absurd (cc (rw (go, other, proved, elsewhere) at h))
            | inl root ↦
                subst (λ t. landing_for_authenticated_reader t later factor ≡ none)
                  (some_inv (rw (go, other, proved, root) at h))
                  (subst (λ f. landing_for_authenticated_reader landing_page later f ≡ none)
                    (sym proved) (landing_page-stays later))
          ]
        ]
      ]
    ]

-- Where the warning is no longer than the window, the three states are three adjoining ranges of the
-- idle time.
idle_state_at_ranges :
    (idle expiry warn : ℕ)
    → warn ≤ expiry
    → ((idle_state_at idle expiry warn ≡ active) ↔ (idle + warn < expiry))
      × ((idle_state_at idle expiry warn ≡ warning) ↔ ((expiry ≤ idle + warn) × (idle < expiry)))
      × ((idle_state_at idle expiry warn ≡ elapsed) ↔ (expiry ≤ idle))
unfolding idle_state_at
idle_state_at_ranges idle expiry warn h = ground arith

minutes : (d : ℕ) → (d ≤ ((d + 59) / 60) * 60) × (((d + 59) / 60) * 60 < d + 60)
minutes d = omega arith

-- Before the window closes, the minutes announced are the least number of minutes that is not shorter
-- than the time left.
minutes_remaining_least :
    (idle expiry : ℕ)
    → idle < expiry
    → (expiry ≤ idle + minutes_remaining idle expiry * 60)
      × (idle + minutes_remaining idle expiry * 60 < expiry + 60)
unfolding minutes_remaining
minutes_remaining_least idle expiry h = omega (arith, minutes (expiry - idle))
