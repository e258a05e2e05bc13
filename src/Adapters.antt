-- ===== src/Adapters.antt =====
-- What the command adapters of src/server/adapters share: imports.ts, knowledge.ts, repositories.ts and
-- settings.ts build one request of the backend each, with path templates whose identifiers are checked.
-- The correlation identifier and the base URL of a request are left out.
pub mod Imports
pub mod Knowledge
pub mod Repositories
pub mod Settings
pub mod Laws
use evirion_engineering_memo.Prelude.{
  List, [], ◌∷◌, ◌++◌, Option, none, some, Bool, ℕ, Text, codes, take, if◌then◌else◌,
}
use evirion_engineering_memo.Prelude.Json.{
  Json, text, array, object, Elements, no_elements, element, Fields, no_fields, field,
}
use evirion_engineering_memo.Origin.{trim}
use evirion_engineering_memo.ConsoleApi.{is_uuid}
use evirion_engineering_memo.Commands.{Scope}

pub record Call : Type 0 where
  pub method : Text
  pub path : Text
  pub access_token : Text
  pub idempotency_key : Option Text
  pub body : Option Json

-- A piece of a path template: a literal, or `identifier(value, label)`.
pub data Part : Type 0 where
  literal : Text → Part
  identifier : Text → Part

abbrev pub prepend : Text → Option Text → Option Text
prepend s none = none
prepend s (some t) = some (s ++ t)

-- The text of a template, unless an identifier of it throws.
unfoldable pub template : List Part → Option Text
template [] = some []
template (literal s ∷ parts) = prepend s (template parts)
template (identifier s ∷ parts) =
    let rest = template parts in if is_uuid s then prepend s rest else none

-- organizationPath
abbrev pub organization_path : Scope → List Part → List Part
organization_path scope suffix =
    literal (codes "/v1/organizations/") ∷ identifier scope.organization_id ∷ suffix

abbrev pub call_at : Scope → Text → Option Text → Option Json → Option Text → Option Call
call_at scope method key body none = none
call_at scope method key body (some path) = some (record {
  method = method;
  path = path;
  access_token = scope.access_token;
  idempotency_key = key;
  body = body;
})

-- read
unfoldable pub read : Scope → List Part → Option Call
read scope path = call_at scope (codes "GET") none none (template path)

-- command; `none` where an identifier throws.
unfoldable pub command : Scope → Text → List Part → Text → Option Json → Option Call
command scope method path idempotency_key body =
    if is_uuid idempotency_key
    then call_at scope method (some idempotency_key) body (template path)
    else none

-- The rest of a body whose object has named an identifier of its own, which may throw.
abbrev pub checked : Text → Option Call → Option Call
checked id call = if is_uuid id then call else none

-- `...(value === undefined ? {} : { name: value })`
abbrev pub spread : Text → Option Json → Fields → Fields
spread name none fields = fields
spread name (some value) fields = field name value fields

abbrev pub optional_text : Option Text → Option Json
optional_text none = none
optional_text (some s) = some (text s)

abbrev pub non_empty : Text → Option Text
non_empty [] = none
non_empty (c ∷ s) = some (c ∷ s)

-- `value?.trim() ?? ""`, cut to the limit, or nothing
abbrev pub cut : ℕ → Text → Option Text
cut limit [] = none
cut limit (c ∷ s) = some (take limit (c ∷ s))

-- bounded, of knowledge.ts with its limit 2000 and of repositories.ts with its limit 500
unfoldable pub bounded : ℕ → Option Text → Option Text
bounded limit none = none
bounded limit (some note) = cut limit (trim note)

unfoldable pub elements : List Text → Elements
elements [] = no_elements
elements (s ∷ ss) = element (text s) (elements ss)
