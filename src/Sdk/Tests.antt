-- ===== src/Sdk/Tests.antt =====
-- Runs of the SDK's auth context (pkg/sdk), and the theorem at one.
use accessgate.Base.{◌≡◌, refl, true, some, [], ◌∷◌}
use accessgate.Base.Int.{pos}
use accessgate.Base.Dict.{Dict, lookup, insert}
use accessgate.Claims.{
  Value, text, items, item, no_items, object, field, no_fields, entries, to_dict, text_or_empty,
  strings_of,
}
use accessgate.Session.{Session}
use accessgate.Sdk.{
  scopes_from_claims, Structs, strings_from_any, roles_from_claims, groups_from_claims,
  string_from_map, tenant_context_to_map, principal_from_session, principal_to_proto,
  session_to_proto, map_of, user_of, claims_of, tenant_map_of, string_slice_from_value,
  nested_roles, set_present, session_user_from_auth_context, session_response_from_auth_context,
  auth_context_from_principal_and_session, auth_context_from_session, session_user_from_session,
}
use accessgate.Sdk.Users.{IsShown, session_user_from_session-IsShown}

abbrev structs : Structs (Dict Value)
structs = record { new_struct = λ m. some m; as_map = λ m. m; fields = λ s. s ∷ [] }

abbrev session : Session
session = record {
  id = "s1";
  access_token = "at";
  refresh_token = "rt";
  id_token = "it";
  expires_at = pos 1000;
  claims = some (
      ("sub", text "u1")
      ∷ ("realm_access", object (field "roles" (items (item (text "admin") no_items)) no_fields))
      ∷ []);
  tenant_context = some (record {
    tenant_id = "t1";
    tenant_slug = "";
    status = "active";
    locale = "";
    timezone = "";
  });
}

session_user_from_session-IsShown_example :
    IsShown session (session_user_from_session structs (some session))
session_user_from_session-IsShown_example =
    session_user_from_session-IsShown structs session (entries session.claims)
      (tenant_context_to_map session.tenant_context) refl refl refl refl

-- The whole user of the session.
whole_user :
    session_user_from_session structs (some session)
    ≡ some (record {
      sub = "u1";
      email = "";
      preferred_username = "";
      name = "";
      roles = "admin" ∷ [];
      groups = [];
      is_admin = true;
      tenant_context = some (("tenant_id", text "t1") ∷ ("status", text "active") ∷ []);
      claims = entries session.claims;
    })
unfolding session_user_from_session auth_context_from_session
    auth_context_from_principal_and_session session_response_from_auth_context
    session_user_from_auth_context principal_from_session principal_to_proto session_to_proto map_of
    user_of claims_of tenant_map_of scopes_from_claims strings_from_any roles_from_claims
    groups_from_claims string_from_map tenant_context_to_map string_slice_from_value nested_roles
    set_present entries to_dict text_or_empty strings_of lookup insert
whole_user = refl
