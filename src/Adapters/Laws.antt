-- ===== src/Adapters/Laws.antt =====
-- When a command of src/server/adapters builds its request, and what the request carries.
use evirion_engineering_memo.Prelude.{
  ◌≡◌, ◌≢◌, ◌≤◌, ◌∙◌, zero, suc, refl, sym, subst, true, ℕ, List, [], ◌∷◌, ◌++◌, Option, none, some,
  Text, codes, length, take, drop, length-take, take-append-drop, arith,
}
use evirion_engineering_memo.Prelude.Json.{Json}
use evirion_engineering_memo.Origin.{trim}
use evirion_engineering_memo.ConsoleApi.{is_uuid}
use evirion_engineering_memo.Commands.{Scope}
use evirion_engineering_memo.Adapters.{
  Call, Part, literal, identifier, template, organization_path, read, command, cut, bounded,
}

-- Every identifier of a template is a UUID.
abbrev pub Identified : List Part → Type 0
Identified [] = Unit
Identified (literal s ∷ parts) = Identified parts
Identified (identifier s ∷ parts) = (is_uuid s ≡ true) × Identified parts

-- A request below the organization of the scope, with its token and the key.
pub record IsCall (scope : Scope) (key : Option Text) (call : Call) : Type 0 where
  pub suffix : Text
  pub below : call.path ≡ codes "/v1/organizations/" ++ (scope.organization_id ++ suffix)
  pub token : call.access_token ≡ scope.access_token
  pub keyed : call.idempotency_key ≡ key

pub template-Identified :
    (parts : List Part) → Identified parts → (s : Text) × (template parts ≡ some s)
unfolding template
template-Identified [] h = ([], refl)
template-Identified (literal s ∷ parts) h =
    let (t, e) = template-Identified parts h in (s ++ t, rw e refl)
template-Identified (identifier s ∷ parts) (u, h) =
    let (t, e) = template-Identified parts h in (s ++ t, rw (e, u) refl)

-- A command is sent if its identifiers are UUIDs.
pub command-IsCall :
    (scope : Scope) (method : Text) (suffix : List Part) (key : Text) (body : Option Json)
    → is_uuid scope.organization_id ≡ true
    → Identified suffix
    → is_uuid key ≡ true
    → (call : Call) × (command scope method (organization_path scope suffix) key body ≡ some call)
      × IsCall scope (some key) call
unfolding command template
command-IsCall scope method suffix key body organization h k =
    let (t, e) = template-Identified suffix h in
    (
      record {
        method = method;
        path = codes "/v1/organizations/" ++ (scope.organization_id ++ t);
        access_token = scope.access_token;
        idempotency_key = some key;
        body = body;
      },
      rw (k, e, organization) refl,
      record { suffix = t; below = refl; token = refl; keyed = refl },
    )

pub read-IsCall :
    (scope : Scope) (suffix : List Part)
    → is_uuid scope.organization_id ≡ true
    → Identified suffix
    → (call : Call) × (read scope (organization_path scope suffix) ≡ some call)
      × (call.method ≡ codes "GET")
      × IsCall scope none call
unfolding read template
read-IsCall scope suffix organization h =
    let (t, e) = template-Identified suffix h in
    (
      record {
        method = codes "GET";
        path = codes "/v1/organizations/" ++ (scope.organization_id ++ t);
        access_token = scope.access_token;
        idempotency_key = none;
        body = none;
      },
      rw (e, organization) refl,
      refl,
      record { suffix = t; below = refl; token = refl; keyed = refl },
    )

cut-IsBounded :
    (limit : ℕ) (note : Text) {s : Text}
    → cut limit note ≡ some s
    → (s ≡ take limit note) × (note ≢ [])
cut-IsBounded limit [] h = absurd (cc)
cut-IsBounded limit (c ∷ note) h = (cc, λ e. absurd (cc))

take-eq-nil : (limit : ℕ) (s : Text) → 1 ≤ limit → take limit s ≡ [] → s ≡ []
take-eq-nil zero s h e = absurd (omega arith)
take-eq-nil (suc limit) [] h e = refl
take-eq-nil (suc limit) (c ∷ s) h e = absurd (cc)

-- A note or a reason is sent only if it is not blank, and what is sent is a beginning of the trimmed
-- text that is not empty and not longer than the limit.
bounded_lem :
    (limit : ℕ) (note : Option Text) (s : Text)
    → 1 ≤ limit
    → bounded limit note ≡ some s
    → (n : Text) × (rest : Text) × (note ≡ some n)
      × (s ++ rest ≡ trim n)
      × (s ≢ [])
      × (length s ≤ limit)
unfolding bounded
bounded_lem limit none s positive h = absurd (cc)
bounded_lem limit (some n) s positive h =
    let (e, filled) = cut-IsBounded limit (trim n) h in
    (
      n,
      drop limit (trim n),
      refl,
      rw e (take-append-drop limit (trim n)),
      λ empty. filled (take-eq-nil limit (trim n) positive (sym e ∙ empty)),
      subst (λ x. length x ≤ limit) (sym e) (rw (length-take limit (trim n)) (omega arith)),
    )
