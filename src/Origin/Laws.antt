-- ===== src/Origin/Laws.antt =====
-- What the request boundary of src/lib/security/request-origin.ts lets through.
use evirion_engineering_memo.Prelude.{
  ◌∙◌, sym, ap, text_eq_self, ◌≡◌, refl, ◌≢◌, ◌↔◌, ◌⊎◌, inl, inr, Bool, true, false, List, [], ◌∷◌,
  none, some, Option, arith, Text, codes, text_eq, text_eq_iff, includes, starts_with, any, not,
  subst, Bool-cases, if◌then◌else◌,
}
use evirion_engineering_memo.Origin.{
  host_mismatch, missing_origin, origin_mismatch, fetch_metadata_mismatch, content_type_not_allowed,
  is_some, equals, mode_allowed, type_allowed, Headers, allowed, rejected,
  untrusted_forwarding_header, MutationRequest, EffectiveOrigin, origin, forged,
  state_changing_methods, allowed_modes, allowed_content_types, forwarding_headers, to_upper_case,
  base_content_type, derive_effective_origin, check_headers, assert_mutation_origin, is_control,
  has_scheme, root, resolve_safe_redirect, method_not_allowed,
}

abbrev pub Allows : List Text → Option Text → Type 0
Allows ts o = (t : Text) × (o ≡ some t) × (includes ts t ≡ true)

-- A request that is same-origin by everything that it and the edge say.
pub record IsSameOrigin (r : MutationRequest) (canonical : Text) : Type 0 where
  pub changes_state : includes state_changing_methods (to_upper_case r.method) ≡ true
  pub reached : derive_effective_origin r ≡ origin canonical
  pub sent_from : r.headers (codes "origin") ≡ some canonical
  pub site : r.headers (codes "sec-fetch-site") ≡ some (codes "same-origin")
  pub mode :
      (r.headers (codes "sec-fetch-mode") ≡ none)
      ⊎ Allows allowed_modes (r.headers (codes "sec-fetch-mode"))
  pub content_type :
      Allows allowed_content_types (base_content_type (r.headers (codes "content-type")))

equals_sound : (o : Option Text) (t : Text) → equals o t ≡ true → o ≡ some t
equals_sound none t h = cc
equals_sound (some s) t h = ap some ((text_eq_iff s t).0 h)

equals_self : (o : Option Text) (t : Text) → o ≡ some t → equals o t ≡ true
equals_self o t e = rw e (text_eq_self t)

mode_allowed_iff :
    (o : Option Text) → (mode_allowed o ≡ true) ↔ ((o ≡ none) ⊎ Allows allowed_modes o)
mode_allowed_iff none = (λ h. inl refl, λ h. refl)
mode_allowed_iff (some m) =
    (λ h. inr (m, refl, h), λ h. elim h [ inl e ↦ absurd (cc e) | inr (t, e, k) ↦ ground arith ])

type_allowed_iff : (o : Option Text) → (type_allowed o ≡ true) ↔ Allows allowed_content_types o
type_allowed_iff none = (λ h. absurd (cc h), λ (t, e, k). absurd (cc e))
type_allowed_iff (some m) = (λ h. (m, refl, h), λ h. ground arith)

equals_present : (o : Option Text) (t : Text) → equals o t ≡ true → is_some o ≡ true
equals_present none t h = cc
equals_present (some s) t h = refl

-- A ladder of six guards passes exactly if each of them does.
guards_iff :
    (a b c d e f : Bool) (x y : Text)
    → ((if not a
          then rejected host_mismatch
          else if not b
          then rejected missing_origin
          else if not c
          then rejected origin_mismatch
          else if not d
          then rejected fetch_metadata_mismatch
          else if not e
          then rejected fetch_metadata_mismatch
          else if not f
          then rejected content_type_not_allowed
          else allowed x)
        ≡ allowed y)
      ↔ ((x ≡ y) × (a ≡ true) × (b ≡ true) × (c ≡ true) × (d ≡ true) × (e ≡ true) × (f ≡ true))
guards_iff true true true true true true x y = ground arith
guards_iff true true true true true false x y = ground arith
guards_iff true true true true false f x y = ground arith
guards_iff true true true false e f x y = ground arith
guards_iff true true false d e f x y = ground arith
guards_iff true false c d e f x y = ground arith
guards_iff false b c d e f x y = ground arith

check_headers-eq-allowed :
    (r : MutationRequest) (canonical effective o : Text)
    → includes state_changing_methods (to_upper_case r.method) ≡ true
    → derive_effective_origin r ≡ origin effective
    → check_headers r.headers canonical effective ≡ allowed o
    → IsSameOrigin r canonical × (o ≡ canonical)
unfolding check_headers
check_headers-eq-allowed r canonical effective o state derived h =
    let (same, host, _, sent, site, mode, type) = (guards_iff _ _ _ _ _ _ effective o).0 h in
    let reached = (text_eq_iff effective canonical).0 host in
    (
      record {
        changes_state = state;
        reached = derived ∙ ap origin reached;
        sent_from = equals_sound _ _ sent;
        site = equals_sound _ _ site;
        mode = (mode_allowed_iff _).0 mode;
        content_type = (type_allowed_iff _).0 type;
      },
      sym same ∙ reached,
    )

check_headers_complete :
    (r : MutationRequest) (canonical : Text)
    → IsSameOrigin r canonical
    → check_headers r.headers canonical canonical ≡ allowed canonical
unfolding check_headers
check_headers_complete r canonical s =
    let sent = equals_self _ _ s.sent_from in
    (guards_iff _ _ _ _ _ _ canonical canonical).1 (
      refl,
      text_eq_self canonical,
      equals_present _ _ sent,
      sent,
      equals_self _ _ s.site,
      (mode_allowed_iff _).1 s.mode,
      (type_allowed_iff _).1 s.content_type,
    )

EffectiveOrigin-cases : (e : EffectiveOrigin) → (e ≡ forged) ⊎ ((o : Text) × (e ≡ origin o))
EffectiveOrigin-cases forged = inl refl
EffectiveOrigin-cases (origin o) = inr (o, refl)

-- A request is let through exactly if it is same-origin: a state-changing method, an effective origin
-- that is the canonical one, an Origin header that says the same, Fetch Metadata of a same-origin
-- request, and an allowed content type; and the origin that is returned is the canonical one.
pub assert_mutation_origin_iff :
    (r : MutationRequest) (canonical o : Text)
    → (assert_mutation_origin r canonical ≡ allowed o)
      ↔ (IsSameOrigin r canonical × (o ≡ canonical))
unfolding assert_mutation_origin
assert_mutation_origin_iff r canonical o = (
  elim (Bool-cases (includes state_changing_methods (to_upper_case r.method))) [
    | inr read ↦ λ h. absurd (cc (rw read at h))
    | inl state ↦ elim (EffectiveOrigin-cases (derive_effective_origin r)) [
      | inl e ↦ λ h. absurd (cc (rw (state, e) at h))
      | inr (x, e) ↦ λ h. check_headers-eq-allowed r canonical x o state e (rw (state, e) at h)
    ]
  ],
  λ (s, same).
      rw (s.changes_state, s.reached)
        (check_headers_complete r canonical s ∙ ap allowed (sym same)),
)

any_of_includes :
    (headers : Headers) (names : List Text) (name value : Text)
    → includes names name ≡ true
    → headers name ≡ some value
    → any (λ n. is_some (headers n)) names ≡ true
unfolding includes
any_of_includes headers [] name value h e = absurd (cc h)
any_of_includes headers (n ∷ names) name value h e = elim (Bool-cases (text_eq n name)) [
  | inl same ↦ rw ((text_eq_iff n name).0 same, e) refl
  | inr other ↦ elim (Bool-cases (is_some (headers n))) [
    | inl y ↦ rw y refl
    | inr y ↦ rw y (any_of_includes headers names name value (rw other at h) e)
  ]
]

-- A request that did not come through the trusted proxy and carries any forwarding header is refused,
-- whatever else it carries: for its method, or for the header.
pub forwarded_directly-rejected :
    (r : MutationRequest) (canonical name value : Text)
    → r.via_trusted_proxy ≡ false
    → includes forwarding_headers name ≡ true
    → r.headers name ≡ some value
    → (assert_mutation_origin r canonical ≡ rejected method_not_allowed)
      ⊎ (assert_mutation_origin r canonical ≡ rejected untrusted_forwarding_header)
unfolding assert_mutation_origin derive_effective_origin
forwarded_directly-rejected r canonical name value direct listed given =
    let forwarded = any_of_includes r.headers forwarding_headers name value listed given in
    elim (Bool-cases (includes state_changing_methods (to_upper_case r.method))) [
      | inl state ↦ inr (rw (state, direct, forwarded) refl)
      | inr read ↦ inl (rw read refl)
    ]

-- A redirect target of a response: a path of this origin.
pub record IsSafePath (t : Text) : Type 0 where
  pub rooted : starts_with (b'/' ∷ []) t ≡ true
  pub one_slash : starts_with (b'/' ∷ b'/' ∷ []) t ≡ false
  pub no_backslash : starts_with (b'/' ∷ 92 ∷ []) t ≡ false
  pub no_control : any is_control t ≡ false
  pub no_scheme : has_scheme t ≡ false

root-IsSafePath : IsSafePath root
unfolding starts_with has_scheme
root-IsSafePath = record {
  rooted = refl;
  one_slash = refl;
  no_backslash = refl;
  no_control = refl;
  no_scheme = refl;
}

-- A ladder of five tests ends in the root or passes all of them.
redirect_cases :
    (a b c d e : Bool) (t x : Text)
    → x ≡ (
        if not a
        then root
        else if b
        then root
        else if c
        then root
        else if d
        then root
        else if e
        then root
        else t)
    → (x ≡ root) ⊎ ((x ≡ t) × (a ≡ true) × (b ≡ false) × (c ≡ false) × (d ≡ false) × (e ≡ false))
redirect_cases false b c d e t x h = inl h
redirect_cases true true c d e t x h = inl h
redirect_cases true false true d e t x h = inl h
redirect_cases true false false true e t x h = inl h
redirect_cases true false false false true t x h = inl h
redirect_cases true false false false false t x h = inr (h, refl, refl, refl, refl, refl)

-- Whatever the candidate, the redirect target is a safe path: it begins with exactly one slash, not
-- followed by a backslash or by a scheme and a colon, and holds no control character.
pub resolve_safe_redirect-IsSafePath :
    (candidate : Option Text) → IsSafePath (resolve_safe_redirect candidate)
unfolding resolve_safe_redirect
resolve_safe_redirect-IsSafePath none = root-IsSafePath
resolve_safe_redirect-IsSafePath (some []) = root-IsSafePath
resolve_safe_redirect-IsSafePath (some (c ∷ s)) =
    elim (redirect_cases (starts_with (b'/' ∷ []) (c ∷ s)) (starts_with (b'/' ∷ b'/' ∷ []) (c ∷ s))
      (starts_with (b'/' ∷ 92 ∷ []) (c ∷ s)) (any is_control (c ∷ s)) (has_scheme (c ∷ s)) (c ∷ s)
      (resolve_safe_redirect (some (c ∷ s))) refl) [
        | inl e ↦ subst IsSafePath (sym e) root-IsSafePath
        | inr (e, rooted, one, back, control, scheme) ↦ subst IsSafePath (sym e) (record {
          rooted = rooted;
          one_slash = one;
          no_backslash = back;
          no_control = control;
          no_scheme = scheme;
        })
      ]

nil-rooted : starts_with (b'/' ∷ []) [] ≢ true
unfolding starts_with
nil-rooted h = cc

-- A safe path is kept as it is.
resolve_safe_redirect_kept : (t : Text) → IsSafePath t → resolve_safe_redirect (some t) ≡ t
unfolding resolve_safe_redirect
resolve_safe_redirect_kept [] h = absurd (nil-rooted h.rooted)
resolve_safe_redirect_kept (c ∷ s) h =
    rw (h.rooted, h.one_slash, h.no_backslash, h.no_control, h.no_scheme) refl
