-- ===== src/Proxy/Principal.antt =====
-- The caller as the auth service resolved it: internal/proxy/resolver.go.
use accessgate.Base.{String, Option, none, some, List, [], is_empty, if◌then◌else◌}
use accessgate.Base.Int.{ℤ}
use accessgate.Base.Dict.{Dict, lookup, insert}
use accessgate.Base.Result.{Result, ok, err}
use accessgate.Claims.{
  Value, float64, int64, items, texts, object, Claims, to_dict, text_or_empty, strings_of,
}
use accessgate.Token.{Principal, Numbers}

pub record ResolveResponse : Type 0 where
  pub access_token : String
  pub claims : Claims
  pub tenant_context : Claims

unfoldable pub strings_from_any_slice : Option Value → List String
strings_from_any_slice (some (texts xs)) = xs
strings_from_any_slice (some (items xs)) = strings_of xs
strings_from_any_slice _ = []

unfoldable pub realm_access_roles : Option Value → List String
unfolding strings_from_any_slice
realm_access_roles (some (object fs)) = strings_from_any_slice (lookup "roles" (to_dict fs))
realm_access_roles _ = []

unfoldable pub extract_roles : Dict Value → List String
unfolding realm_access_roles
extract_roles claims =
    let realm = realm_access_roles (lookup "realm_access" claims) in
    if is_empty realm then strings_from_any_slice (lookup "roles" claims) else realm

-- The claims, nil as none, with the roles at "roles".
unfoldable pub normalize_resolved : Claims → Dict Value
unfolding extract_roles
normalize_resolved none = []
normalize_resolved (some claims) =
    let roles = extract_roles claims in
    if is_empty roles then claims else insert "roles" (texts roles) claims

module _ (numbers : Numbers) where
  expires_of : Option Value → Option ℤ
  expires_of (some (float64 t)) = some (numbers.of_float t)
  expires_of (some (int64 t)) = some t
  expires_of _ = none

  unfoldable pub resolve_response_to_principal : ResolveResponse → Principal
  unfolding expires_of normalize_resolved
  resolve_response_to_principal r =
      let claims = normalize_resolved r.claims in
      record {
        subject = text_or_empty (lookup "sub" claims);
        scopes = [];
        roles = extract_roles claims;
        claims = some claims;
        expires_at = expires_of (lookup "exp" claims);
        access_token = r.access_token;
        tenant_context = r.tenant_context;
      }

  -- AuthPrincipalResolver.Resolve, from the auth client's answer on; `none` is a nil response.
  unfoldable pub resolve_principal : Result (Option ResolveResponse) → Result (Option Principal)
  unfolding resolve_response_to_principal
  resolve_principal (err e) = err e
  resolve_principal (ok none) = ok none
  resolve_principal (ok (some r)) = ok (some (resolve_response_to_principal r))
