-- ===== src/Reauth/Paths.antt =====
-- The allowlist of replayed mutations against the handlers that replay them.
use evirion_engineering_memo.Prelude.{
  ◌≡◌, refl, ◌↔◌, sym, ◌∙◌, subst, Bool, true, false, List, [], ◌∷◌, some, Text, text_eq,
  text_eq_iff, includes, Bool-cases, All, inl, inr,
}
use evirion_engineering_memo.Reauth.{
  Gate, repository_import, knowledge_lifecycle, membership_change, repository_policy,
  mutation_paths_for_gate, is_allowed_mutation_path, Handler, handlers, switch,
  resolve_mutation_handler,
}

includes-All :
    (P : Text → Type 0) (xs : List Text) (a : Text) → All P xs → includes xs a ≡ true → P a
unfolding includes
includes-All P [] a h e = absurd (cc)
includes-All P (x ∷ xs) a (px, h) e = elim (Bool-cases (text_eq x a)) [
  | inl same ↦ subst P ((text_eq_iff x a).0 same) px
  | inr other ↦ includes-All P xs a h (rw other at e)
]

abbrev Resolves : Text → Type 0
Resolves t = (h : Handler) × (resolve_mutation_handler t ≡ some h)

paths-Resolve : (gate : Gate) → All Resolves (mutation_paths_for_gate gate)
unfolding mutation_paths_for_gate resolve_mutation_handler handlers switch text_eq
paths-Resolve repository_import = ((_, refl), ((_, refl), ((_, refl), ((_, refl), tt))))
paths-Resolve knowledge_lifecycle = ((_, refl), ((_, refl), ((_, refl), tt)))
paths-Resolve membership_change =
    ((_, refl), ((_, refl), ((_, refl), ((_, refl), ((_, refl), tt)))))
paths-Resolve repository_policy = ((_, refl), ((_, refl), ((_, refl), ((_, refl), tt))))

abbrev AllowedBySome : Text → Type 0
AllowedBySome t = (gate : Gate) × (is_allowed_mutation_path gate t ≡ true)

handlers-AllowedBySome : All (λ (t, h). AllowedBySome t) handlers
unfolding mutation_paths_for_gate is_allowed_mutation_path handlers includes text_eq
handlers-AllowedBySome = (
  (repository_import, refl),
  (
    (repository_import, refl),
    (
      (repository_import, refl),
      (
        (repository_import, refl),
        (
          (knowledge_lifecycle, refl),
          (
            (knowledge_lifecycle, refl),
            (
              (knowledge_lifecycle, refl),
              (
                (membership_change, refl),
                (
                  (membership_change, refl),
                  (
                    (membership_change, refl),
                    (
                      (membership_change, refl),
                      (
                        (membership_change, refl),
                        (
                          (repository_policy, refl),
                          (
                            (repository_policy, refl),
                            ((repository_policy, refl), ((repository_policy, refl), tt)),
                          ),
                        ),
                      ),
                    ),
                  ),
                ),
              ),
            ),
          ),
        ),
      ),
    ),
  ),
)

switch-All :
    {A : Type 0} (P : Text → Type 0) (rows : List (Text × A)) (value : Text) {a : A}
    → All (λ (t, b). P t) rows
    → switch rows value ≡ some a
    → P value
unfolding switch
switch-All P [] value h e = absurd (cc)
switch-All P ((t, b) ∷ rows) value (p, h) e = elim (Bool-cases (text_eq t value)) [
  | inl same ↦ subst P ((text_eq_iff t value).0 same) p
  | inr other ↦ switch-All P rows value h (rw other at e)
]

-- A mutation path has a handler exactly if some gate allows it: a replay of an allowed path never fails
-- for want of a handler, and no handler is reached by a path that no gate allows.
pub resolve_mutation_handler_iff :
    (path : Text)
    → ((h : Handler) × (resolve_mutation_handler path ≡ some h))
      ↔ ((gate : Gate) × (is_allowed_mutation_path gate path ≡ true))
unfolding resolve_mutation_handler is_allowed_mutation_path
resolve_mutation_handler_iff path = (
  λ (h, e). switch-All AllowedBySome handlers path handlers-AllowedBySome e,
  λ (gate, e). includes-All Resolves (mutation_paths_for_gate gate) path (paths-Resolve gate) e,
)

-- The gate that a path belongs to, read off from the prefix of the path.
abbrev gate_tests : Text → Bool × Bool × Bool × Bool
gate_tests t = (
  is_allowed_mutation_path repository_import t,
  is_allowed_mutation_path knowledge_lifecycle t,
  is_allowed_mutation_path membership_change t,
  is_allowed_mutation_path repository_policy t,
)

abbrev tests_of : Gate → Bool × Bool × Bool × Bool
tests_of repository_import = (true, false, false, false)
tests_of knowledge_lifecycle = (false, true, false, false)
tests_of membership_change = (false, false, true, false)
tests_of repository_policy = (false, false, false, true)

paths-tests : (gate : Gate) → All (λ t. gate_tests t ≡ tests_of gate) (mutation_paths_for_gate gate)
unfolding mutation_paths_for_gate is_allowed_mutation_path includes text_eq
paths-tests repository_import = (refl, (refl, (refl, (refl, tt))))
paths-tests knowledge_lifecycle = (refl, (refl, (refl, tt)))
paths-tests membership_change = (refl, (refl, (refl, (refl, (refl, tt)))))
paths-tests repository_policy = (refl, (refl, (refl, (refl, tt))))

tests_of-injective : (g h : Gate) → tests_of g ≡ tests_of h → g ≡ h
tests_of-injective repository_import repository_import e = refl
tests_of-injective repository_import knowledge_lifecycle e = absurd (cc)
tests_of-injective repository_import membership_change e = absurd (cc)
tests_of-injective repository_import repository_policy e = absurd (cc)
tests_of-injective knowledge_lifecycle repository_import e = absurd (cc)
tests_of-injective knowledge_lifecycle knowledge_lifecycle e = refl
tests_of-injective knowledge_lifecycle membership_change e = absurd (cc)
tests_of-injective knowledge_lifecycle repository_policy e = absurd (cc)
tests_of-injective membership_change repository_import e = absurd (cc)
tests_of-injective membership_change knowledge_lifecycle e = absurd (cc)
tests_of-injective membership_change membership_change e = refl
tests_of-injective membership_change repository_policy e = absurd (cc)
tests_of-injective repository_policy repository_import e = absurd (cc)
tests_of-injective repository_policy knowledge_lifecycle e = absurd (cc)
tests_of-injective repository_policy membership_change e = absurd (cc)
tests_of-injective repository_policy repository_policy e = refl

allowed-tests :
    (gate : Gate) (path : Text)
    → is_allowed_mutation_path gate path ≡ true
    → gate_tests path ≡ tests_of gate
unfolding is_allowed_mutation_path
allowed-tests gate path h =
    includes-All (λ t. gate_tests t ≡ tests_of gate) (mutation_paths_for_gate gate) path
      (paths-tests gate) h

-- No mutation path is allowed by two gates.
is_allowed_mutation_path_unique :
    (g h : Gate) (path : Text)
    → is_allowed_mutation_path g path ≡ true
    → is_allowed_mutation_path h path ≡ true
    → g ≡ h
is_allowed_mutation_path_unique g h path allowed_g allowed_h =
    tests_of-injective g h (sym (allowed-tests g path allowed_g) ∙ allowed-tests h path allowed_h)
