-- ===== src/Examples/ProxyRuns.antt =====
-- Runs of the proxy and of the logout.
use evirion_engineering_memo.Prelude.{
  ◌≡◌, false, refl, ◌⊎◌, [], none, some, List, Text, Option, codes, text_eq, starts_with, ◌++◌,
}
use evirion_engineering_memo.Prelude.Json.{get, get_field, Json}
use evirion_engineering_memo.Csrf.{
  csrf_bound_session_id, before_dot, payload_of, payload_json, binding_json,
}
use evirion_engineering_memo.Session.{StoredSession, access_token_needs_refresh}
use evirion_engineering_memo.Cookies.{CookieInstruction}
use evirion_engineering_memo.Cookies.Parse.{lookup}
use evirion_engineering_memo.Guard.{
  guard_mutation, session_binding_from, session_csrf_cookie, threw, GuardFailure, Form, stopped,
  passed, form_get,
}
use evirion_engineering_memo.Landing.{
  landing_for_authenticated_reader, is_auth_path, placeholder_root,
}
use evirion_engineering_memo.Proxy.{Edge, Visit, forwarded, proxy, renew_if_due}
use evirion_engineering_memo.Proxy.Laws.{IsRenewal, IsProofFor, proxy-forwarded}
use evirion_engineering_memo.Logout.{logged_out, logout}
use evirion_engineering_memo.Logout.Revoke.{turned_away, revoke, revoke_threw}
use evirion_engineering_memo.Logout.Revocations.{IsSelected, revoke-IsRevocation}
use evirion_engineering_memo.Logout.Removals.{Removes, session_names, other_names}
use evirion_engineering_memo.Logout.Laws.{NamesUnknown, logout-cleared}
use evirion_engineering_memo.Examples.CookieRuns.{sample, generation, session_jar}
use evirion_engineering_memo.Examples.ProofRuns.{mac, decode, encode, jar-active}
use evirion_engineering_memo.Examples.RouteRuns.{route_world, route_request}

abbrev edge : Edge
edge = record {
  mac = mac;
  encode = encode;
  decode = decode;
  encode_session = λ s. codes "s";
  now = 1010;
  generation = generation;
  transaction_id = codes "t";
  proof_nonce = codes "n";
  refresh = λ refresh_token. none;
  extract_aal = λ access_token. codes "aal2";
}

abbrev page : Visit
page = record {
  path = codes "/memory";
  cookies = session_jar;
  cookie_header = none;
  fetch_mode = some (codes "navigate");
}

abbrev no_cookies : List CookieInstruction
no_cookies = []

page-forwarded : proxy edge page ≡ forwarded none [] none none
unfolding proxy renew_if_due access_token_needs_refresh landing_for_authenticated_reader text_eq
    starts_with csrf_bound_session_id before_dot payload_of payload_json binding_json get get_field
    lookup session_csrf_cookie is_auth_path placeholder_root
page-forwarded = rw jar-active refl

page-outside : starts_with (codes "/api/") (codes "/memory") ≡ false
unfolding starts_with
page-outside = refl

proxy-forwarded_example :
    (after : StoredSession) × (((after ≡ sample) × (no_cookies ≡ []))
      ⊎ IsRenewal edge sample after no_cookies)
    × IsProofFor edge page after none
proxy-forwarded_example =
    proxy-forwarded edge page sample generation none [] none none jar-active page-outside
      page-forwarded

logout-cleared_example :
    ((cookies : List CookieInstruction) × (kind : Option Text) × (logout route_world route_request
        ≡ logged_out cookies kind)
      × Removes (session_names ++ other_names) cookies)
    ⊎ ((guard_mutation route_world.decode route_world.environment 1010
            (session_binding_from route_world.decode 1010)
            route_request
          ≡ threw)
        ⊎ NamesUnknown route_world route_request)
logout-cleared_example = logout-cleared route_world route_request

revoke-IsRevocation_example :
    ((form : Form) × (binding : Json) × (guard_mutation route_world.decode route_world.environment
          1010
          (session_binding_from route_world.decode 1010)
          route_request
        ≡ passed form binding)
      × IsSelected (form_get (codes "selection") form) (revoke route_world route_request))
    ⊎ (((e : GuardFailure) × (guard_mutation route_world.decode route_world.environment 1010
              (session_binding_from route_world.decode 1010)
              route_request
            ≡ stopped e)
          × (revoke route_world route_request ≡ turned_away (codes "/auth/sign-in")))
        ⊎ ((guard_mutation route_world.decode route_world.environment 1010
                (session_binding_from route_world.decode 1010)
                route_request
              ≡ threw)
            × (revoke route_world route_request ≡ revoke_threw)))
revoke-IsRevocation_example = revoke-IsRevocation route_world route_request
