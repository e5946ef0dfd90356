-- ===== src/Proxy/Forward.antt =====
-- Forwarding to the upstream: ProxyToUpstream and singleJoiningSlash of internal/authz/http.go, up
-- to the request that is handed to httputil's reverse proxy. Header keys are ASCII.
pub mod Trust
use Prim.Native.String.{◌++◌}
use accessgate.Base.{
  String, ◌==◌, Bool, not, ◌&&◌, ◌||◌, Option, none, some, List, [], ◌∷◌, any, if◌then◌else◌,
}
use accessgate.Base.Text.{has_prefix, trim_prefix, trim_slash, eq_fold}
use accessgate.Base.Dict.{Dict, insert}

abbrev reserved_identity_headers : List String
reserved_identity_headers =
    "authorization" ∷ "x-user-id" ∷ "x-roles" ∷ "x-user-email" ∷ "x-user-full-name"
    ∷ "x-user-preferred-username" ∷ "x-is-admin" ∷ "x-tenant-id" ∷ []

unfoldable pub is_reserved : String → Bool
is_reserved k = any (eq_fold k) reserved_identity_headers

-- The loop over the client's headers.
unfoldable pub forward_client : Dict (List String) → Dict (List String)
unfolding is_reserved
forward_client [] = []
forward_client ((k, v) ∷ more) =
    let rest = forward_client more in
    if eq_fold k "Cookie" || is_reserved k then rest else (k, v) ∷ rest

-- The loop of Header.Set, with net/textproto's canonical form of a key.
unfoldable pub set_headers :
    (String → String) → Dict String → Dict (List String) → Dict (List String)
set_headers canonical [] h = h
set_headers canonical ((k, v) ∷ more) h =
    set_headers canonical more (insert (canonical k) (v ∷ []) h)

unfoldable pub outgoing_headers :
    (String → String) → Dict (List String) → Dict String → Dict (List String)
unfolding forward_client set_headers
outgoing_headers canonical client upstream = set_headers canonical upstream (forward_client client)

unfoldable pub single_joining_slash : String → String → String
single_joining_slash a b =
    let base = trim_slash a in
    let rest = trim_prefix b "/" in
    if base == "" then "/" ++ rest else if rest == "" then base else base ++ ("/" ++ rest)

-- The path and query of the request that is handed on.
unfoldable pub outgoing_path : String → String → String → String
unfolding single_joining_slash
outgoing_path base path raw_query =
    let joined = single_joining_slash base path in
    let rooted =
      if not (joined == "") && not (has_prefix joined "/") then "/" ++ joined else joined in
    if raw_query == "" then rooted else rooted ++ ("?" ++ raw_query)
