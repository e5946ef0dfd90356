-- ===== src/Proxy/Headers.antt =====
-- The headers for the upstream: BuildUpstreamHeaders, getClaim and getClaimSlice of
-- internal/proxy/headers.go.
pub mod Paths
use Prim.Native.String.{◌++◌}
use accessgate.Base.{
  String, ◌==◌, Bool, not, ◌&&◌, ◌||◌, Option, none, some, List, [], ◌∷◌, any, is_empty,
  if◌then◌else◌,
}
use accessgate.Base.Text.{split, join}
use accessgate.Base.Dict.{Dict, lookup, insert}
use accessgate.Claims.{Value, items, texts, object, Claims, to_dict, text_or_empty, strings_of}

pub record HeaderConfig : Type 0 where
  pub header_user_id_claim : String
  pub header_email_claim : String
  pub header_name_claim : String
  pub header_preferred_username_claim : String
  pub header_roles_claim : String
  pub header_groups_claim : String
  pub header_admin_role : String
  pub header_tenant_id_claim : String

-- The value at the end of a path of keys, through nested objects.
unfoldable pub value_at : Dict Value → List String → Option Value
value_at m [] = none
value_at m (p ∷ []) = lookup p m
value_at m (p ∷ q ∷ more) = elim (lookup p m) [
  | some (object fs) ↦ value_at (to_dict fs) (q ∷ more)
  | _ ↦ none
]

unfoldable pub get_claim : Claims → String → String
unfolding value_at
get_claim none path = ""
get_claim (some m) path = if path == "" then "" else text_or_empty (value_at m (split b'.' path))

unfoldable pub texts_of : Option Value → List String
texts_of (some (items xs)) = strings_of xs
texts_of (some (texts xs)) = xs
texts_of _ = []

unfoldable pub get_claim_slice : Claims → String → List String
unfolding value_at texts_of
get_claim_slice none path = []
get_claim_slice (some m) path = if path == "" then [] else texts_of (value_at m (split b'.' path))

-- `if v := ...; v != "" { h[name] = v }`
unfoldable pub set_nonempty : String → String → Dict String → Dict String
set_nonempty name v h = if v == "" then h else insert name v h

unfoldable pub set_joined : String → List String → Dict String → Dict String
set_joined name vs h = if is_empty vs then h else insert name (join "," vs) h

unfoldable pub is_admin : HeaderConfig → Claims → Bool
unfolding get_claim_slice
is_admin cfg claims =
    not (cfg.header_admin_role == "")
    && any (λ r. r == cfg.header_admin_role || r == "administrator")
        (get_claim_slice claims cfg.header_roles_claim)

-- The headers of the claims, over those already set.
unfoldable pub claim_headers : HeaderConfig → Claims → Dict String → Dict String
unfolding get_claim set_nonempty set_joined is_admin
claim_headers cfg claims h =
    let get = get_claim claims in
    let user = set_nonempty "X-User-Id" (get cfg.header_user_id_claim) h in
    let email = set_nonempty "X-User-Email" (get cfg.header_email_claim) user in
    let name = set_nonempty "X-User-Full-Name" (get cfg.header_name_claim) email in
    let preferred =
      set_nonempty "X-User-Preferred-Username" (get cfg.header_preferred_username_claim) name in
    let roles = set_joined "X-Roles" (get_claim_slice claims cfg.header_roles_claim) preferred in
    let groups = set_joined "X-Groups" (get_claim_slice claims cfg.header_groups_claim) roles in
    insert "X-Is-Admin" (if is_admin cfg claims then "true" else "false") groups

unfoldable pub tenant_of : Claims → String
tenant_of none = ""
tenant_of (some m) = text_or_empty (lookup "tenant_id" m)

unfoldable pub build_upstream_headers : HeaderConfig → String → Claims → Claims → Dict String
unfolding set_nonempty claim_headers tenant_of
build_upstream_headers cfg access_token none tenant_context =
    if access_token == "" then [] else insert "Authorization" ("Bearer " ++ access_token) []
build_upstream_headers cfg access_token (some m) tenant_context =
    let auth =
      if access_token == "" then [] else insert "Authorization" ("Bearer " ++ access_token) [] in
    let claimed = claim_headers cfg (some m) auth in
    let tenant = set_nonempty "X-Tenant-Id" (tenant_of tenant_context) claimed in
    if cfg.header_tenant_id_claim == ""
    then tenant
    else set_nonempty "X-Tenant-Id" (get_claim (some m) cfg.header_tenant_id_claim) tenant
