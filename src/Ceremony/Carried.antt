-- ===== src/Ceremony/Carried.antt =====
-- What the fields of a paused mutation carry over: `fields[key] = value` of
-- src/lib/auth/reauthentication-state.ts keeps one value of each name.
use evirion_engineering_memo.Prelude.{
  ℕ, suc, ◌≡◌, ◌≢◌, ◌≤◌, inl, inr, refl, sym, ◌∙◌, subst, ap, Option, none, true, false, List, [],
  ◌∷◌, some, Bool-cases, Text, codes, text_eq, text_eq_iff, text_eq_self, arith, if◌then◌else◌,
}
use evirion_engineering_memo.Origin.{trim}
use evirion_engineering_memo.Guard.{Form, string, file, form_get}
use evirion_engineering_memo.Cookies.{Cookies}
use evirion_engineering_memo.Cookies.Parse.{lookup}
use evirion_engineering_memo.Reauth.State.{set_field, collect_fields, form_fields_from}
use evirion_engineering_memo.Ceremony.{filled_entries}
use evirion_engineering_memo.Routes.Policy.{with_profile, get_profiles}

-- The form that the platform reads back from fields.
abbrev pub as_form : List (Text × Text) → Form
as_form [] = []
as_form ((key, value) ∷ fields) = (key, string value) ∷ as_form fields

pub form_get-set_field :
    (key value : Text) (fields : List (Text × Text))
    → form_get key (as_form (set_field key value fields)) ≡ some (string value)
unfolding form_get set_field
form_get-set_field key value [] = rw (text_eq_self key) refl
form_get-set_field key value ((k, v) ∷ fields) = elim (Bool-cases (text_eq k key)) [
  | inl e ↦ rw (e, e) refl
  | inr e ↦ rw (e, e) (form_get-set_field key value fields)
]

lookup-set_field :
    (key : Text) (x : ℕ) (value : Text) (jar : Cookies)
    → lookup key (filled_entries (set_field key (x ∷ value) jar)) ≡ some (x ∷ value)
unfolding lookup set_field filled_entries
lookup-set_field key x value [] = rw (text_eq_self key) refl
lookup-set_field key x value ((k, []) ∷ jar) = elim (Bool-cases (text_eq k key)) [
  | inl e ↦ rw (e, e) refl
  | inr e ↦ rw e (lookup-set_field key x value jar)
]
lookup-set_field key x value ((k, y ∷ v) ∷ jar) = elim (Bool-cases (text_eq k key)) [
  | inl e ↦ rw (e, e) refl
  | inr e ↦ rw (e, e) (lookup-set_field key x value jar)
]

pub lookup-set_field-filled :
    (key token : Text) (jar : Cookies)
    → token ≢ []
    → lookup key (filled_entries (set_field key token jar)) ≡ some token
lookup-set_field-filled key [] jar h = absurd (h refl)
lookup-set_field-filled key (x ∷ token) jar h = lookup-set_field key x token jar

-- The number of the entries of a name.
abbrev count : Text → List (Text × Text) → ℕ
count name [] = 0
count name ((key, value) ∷ fields) =
    let rest = count name fields in if text_eq key name then suc rest else rest

count-other :
    (name key value : Text) (fields : List (Text × Text))
    → text_eq key name ≡ false
    → count name (set_field key value fields) ≡ count name fields
unfolding set_field
count-other name key value [] h = rw h refl
count-other name key value ((k, v) ∷ fields) h = elim (Bool-cases (text_eq k key)) [
  | inl e ↦ rw e refl
  | inr e ↦ rw (e, count-other name key value fields h) refl
]

other_of :
    (k key name : Text) → text_eq k key ≡ true → text_eq key name ≡ false → text_eq k name ≡ false
other_of k key name e h = subst (λ x. text_eq x name ≡ false) (sym ((text_eq_iff k key).0 e)) h

counted : (n : ℕ) → ¬ (suc n ≤ 0)
counted n h = omega arith

uncounted : (n : ℕ) → suc n ≤ 1 → n ≤ 0
uncounted n h = omega arith

apart_of :
    (k key name : Text) → text_eq k key ≡ false → text_eq k name ≡ true → text_eq key name ≡ false
apart_of k key name e mine = elim (Bool-cases (text_eq key name)) [
  | inr apart ↦ apart
  | inl same ↦ absurd (
      cc (
        rw (sym ((text_eq_iff k name).0 mine ∙ sym ((text_eq_iff key name).0 same))) at e,
        text_eq_self k,
      ))
]

count-set_field :
    (name key value : Text) (fields : List (Text × Text))
    → count name fields ≤ 1
    → count name (set_field key value fields) ≤ 1
unfolding set_field
count-set_field name key value [] h = elim (Bool-cases (text_eq key name)) [
  | inl e ↦ rw e (omega arith)
  | inr e ↦ rw e (omega arith)
]
count-set_field name key value ((k, v) ∷ fields) h = elim (Bool-cases (text_eq k key)) [
  | inl e ↦ rw e h
  | inr e ↦ elim (Bool-cases (text_eq k name)) [
    | inr other ↦ rw (e, other) (count-set_field name key value fields (rw other at h))
    | inl mine ↦
        let apart = apart_of k key name e mine in
        rw (e, mine, count-other name key value fields apart) (rw mine at h)
  ]
]

-- The fields of a form have distinct names.
count-collect_fields :
    (name : Text) (fields : List (Text × Text)) (form : Form)
    → count name fields ≤ 1
    → count name (collect_fields fields form) ≤ 1
unfolding collect_fields
count-collect_fields name fields [] h = h
count-collect_fields name fields ((key, string value) ∷ form) h =
    count-collect_fields name (set_field key value fields) form
      (count-set_field name key value fields h)
count-collect_fields name fields ((key, file) ∷ form) h = count-collect_fields name fields form h

-- The last text of a name in a form, or else what was there before.
abbrev pub last_of : Text → Option Text → Form → Option Text
last_of name before [] = before
last_of name before ((key, string value) ∷ form) =
    last_of name (if text_eq key name then some value else before) form
last_of name before ((key, file) ∷ form) = last_of name before form

-- A profile, trimmed and not blank.
abbrev pub profile_of : Option Text → List Text
profile_of none = []
profile_of (some value) = with_profile (trim value) []

lookup-set_field-same :
    (name value : Text) (fields : List (Text × Text))
    → lookup name (set_field name value fields) ≡ some value
unfolding lookup set_field
lookup-set_field-same name value [] = rw (text_eq_self name) refl
lookup-set_field-same name value ((k, v) ∷ fields) = elim (Bool-cases (text_eq k name)) [
  | inl e ↦ rw (e, e) refl
  | inr e ↦ rw (e, e) (lookup-set_field-same name value fields)
]

lookup-set_field-other :
    (name key value : Text) (fields : List (Text × Text))
    → text_eq key name ≡ false
    → lookup name (set_field key value fields) ≡ lookup name fields
unfolding lookup set_field
lookup-set_field-other name key value [] h = rw h refl
lookup-set_field-other name key value ((k, v) ∷ fields) h = elim (Bool-cases (text_eq k key)) [
  | inl e ↦ rw (e, other_of k key name e h) refl
  | inr e ↦ rw (e, lookup-set_field-other name key value fields h) refl
]

lookup-set_field-any :
    (name key value : Text) (fields : List (Text × Text))
    → lookup name (set_field key value fields)
      ≡ (if text_eq key name then some value else lookup name fields)
lookup-set_field-any name key value fields = elim (Bool-cases (text_eq key name)) [
  | inr e ↦ rw e (lookup-set_field-other name key value fields e)
  | inl e ↦ rw e (
      subst (λ k. lookup name (set_field k value fields) ≡ some value)
        (sym ((text_eq_iff key name).0 e)) (lookup-set_field-same name value fields))
]

lookup-collect_fields :
    (name : Text) (fields : List (Text × Text)) (form : Form)
    → lookup name (collect_fields fields form) ≡ last_of name (lookup name fields) form
unfolding collect_fields
lookup-collect_fields name fields [] = refl
lookup-collect_fields name fields ((key, string value) ∷ form) =
    lookup-collect_fields name (set_field key value fields) form
    ∙ ap (λ o. last_of name o form) (lookup-set_field-any name key value fields)
lookup-collect_fields name fields ((key, file) ∷ form) = lookup-collect_fields name fields form

get_profiles-none :
    (name : Text) (fields : List (Text × Text))
    → count name fields ≤ 0
    → get_profiles name (as_form fields) ≡ []
unfolding get_profiles
get_profiles-none name [] h = refl
get_profiles-none name ((key, value) ∷ fields) h = elim (Bool-cases (text_eq key name)) [
  | inr other ↦ rw other (get_profiles-none name fields (rw other at h))
  | inl mine ↦ absurd (counted (count name fields) (rw mine at h))
]

get_profiles-lookup :
    (name : Text) (fields : List (Text × Text))
    → count name fields ≤ 1
    → get_profiles name (as_form fields) ≡ profile_of (lookup name fields)
unfolding get_profiles lookup
get_profiles-lookup name [] h = refl
get_profiles-lookup name ((key, value) ∷ fields) h = elim (Bool-cases (text_eq key name)) [
  | inr other ↦ rw other (get_profiles-lookup name fields (rw other at h))
  | inl mine ↦
      rw (mine, get_profiles-none name fields (uncounted (count name fields) (rw mine at h))) refl
]

-- Of the model profiles that the form of a paused policy names, under any name but `csrfToken`, the form of its replay has the last one
-- and no other: the last text under their name, trimmed, and none where that is blank or missing.
pub replayed-profiles :
    (name token : Text) (form : Form)
    → text_eq (codes "csrfToken") name ≡ false
    → get_profiles name (as_form (set_field (codes "csrfToken") token (form_fields_from form)))
      ≡ profile_of (last_of name none form)
unfolding lookup
replayed-profiles name token form apart =
    get_profiles-lookup name (set_field (codes "csrfToken") token (form_fields_from form)) (
      count-set_field name (codes "csrfToken") token (form_fields_from form)
        (count-collect_fields name [] form (omega arith)))
    ∙ ap profile_of (
        lookup-set_field-other name (codes "csrfToken") token (form_fields_from form) apart
        ∙ lookup-collect_fields name [] form)
