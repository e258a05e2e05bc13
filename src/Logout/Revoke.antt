-- ===== src/Logout/Revoke.antt =====
-- src/app/api/auth/sessions/revoke: the revocation of one, the other or all sessions.
use evirion_engineering_memo.Prelude.{
  Bool, true, false, ◌||◌, List, [], ◌∷◌, Option, none, some, Text, codes, text_eq, includes,
  if◌then◌else◌,
}
use evirion_engineering_memo.Cookies.{CookieInstruction}
use evirion_engineering_memo.Session.{clear_session}
use evirion_engineering_memo.Guard.{
  FormValue, string, file, Request, GuardResult, passed, stopped, threw, guard_mutation,
  session_binding_from, form_get,
}
use evirion_engineering_memo.Commands.{World}
use evirion_engineering_memo.Logout.{
  ProviderEffect, local_scope, others_scope, global_scope, not_applicable, provider_effect_for,
}

-- REVOCATION_SELECTIONS
unfoldable pub revocation_selections : List Text
revocation_selections = codes "current" ∷ codes "others" ∷ codes "all" ∷ codes "selected" ∷ []

-- A redirect that revokes nothing, one with the cookies that it sets and its header
-- `x-console-provider-effect`, or an
-- exception.
pub data Revoked : Type 0 where
  turned_away : Text → Revoked
  revoked : Text → List CookieInstruction → Text → Revoked
  revoke_threw : Revoked

abbrev pub ends_this_session : Text → Bool
ends_this_session selection = text_eq selection (codes "current") || text_eq selection (codes "all")

-- `effect.kind === "scope" ? effect.scope : "NOT_APPLICABLE"`
abbrev pub effect_header : ProviderEffect → Text
effect_header local_scope = codes "local"
effect_header others_scope = codes "others"
effect_header global_scope = codes "global"
effect_header not_applicable = codes "NOT_APPLICABLE"

abbrev pub revoked_with : Bool → Option ProviderEffect → Revoked
revoked_with ends none = revoke_threw
revoked_with true (some effect) =
    revoked (codes "/auth/sign-in") clear_session (effect_header effect)
revoked_with false (some effect) = revoked (codes "/settings/sessions") [] (effect_header effect)

abbrev pub revoke_selection : Option FormValue → Revoked
revoke_selection none = turned_away (codes "/settings/sessions")
revoke_selection (some file) = turned_away (codes "/settings/sessions")
revoke_selection (some (string selection)) =
    if includes revocation_selections selection
    then revoked_with (ends_this_session selection) (provider_effect_for selection)
    else turned_away (codes "/settings/sessions")

abbrev pub revoke_guarded : GuardResult → Revoked
revoke_guarded (passed form binding) = revoke_selection (form_get (codes "selection") form)
revoke_guarded (stopped e) = turned_away (codes "/auth/sign-in")
revoke_guarded threw = revoke_threw

-- POST of sessions/revoke
unfoldable pub revoke : World → Request → Revoked
revoke w r =
    revoke_guarded
      (guard_mutation w.decode w.environment w.now (session_binding_from w.decode w.now) r)
