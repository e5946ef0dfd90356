-- ===== src/Sdk.antt =====
-- The SDK's auth context: pkg/sdk/context.go. structpb and strings.Fields are parameters; a
-- structpb.Struct is of any type S. The getters of a nil message give the zero value.

pub mod Users
mod Tests
use mathlib.Core.Option.{map}
use accessgate.Base.{
  String, ◌==◌, Bool, false, not, ◌&&◌, ◌||◌, Option, none, some, List, [], ◌∷◌, any, is_empty,
  is_some, if◌then◌else◌,
}
use accessgate.Base.Int.{ℤ, negsuc}
use accessgate.Base.Dict.{Dict, lookup, insert}
use accessgate.Claims.{
  Value, text, items, texts, object, Claims, entries, to_dict, text_or_empty, strings_of,
}
use accessgate.Session.{TenantContext, Session}
use accessgate.Token.{Principal}

pub record ProtoPrincipal (S : Type 0) : Type 0 where
  pub subject : String
  pub scopes : List String
  pub roles : List String
  pub claims : Option S
  pub tenant_context : Option S
  pub access_token : String
  pub expires_at : ℤ

pub record ProtoSession (S : Type 0) : Type 0 where
  pub id : String
  pub access_token : String
  pub refresh_token : String
  pub id_token : String
  pub expires_at : ℤ
  pub claims : Option S
  pub tenant_context : Option S

pub record AuthContext (S : Type 0) : Type 0 where
  pub principal : Option (ProtoPrincipal S)
  pub session : Option (ProtoSession S)

pub record SessionUser : Type 0 where
  pub sub : String
  pub email : String
  pub preferred_username : String
  pub name : String
  pub roles : List String
  pub groups : List String
  pub is_admin : Bool
  pub tenant_context : Claims
  pub claims : Dict Value

-- `none` is a response with IsAuthenticated false.
abbrev pub SessionResponse : Type 0
SessionResponse = Option SessionUser

unfoldable pub strings_from_any : List String → List String
strings_from_any [] = []
strings_from_any (v ∷ more) = let rest = strings_from_any more in if v == "" then rest else v ∷ rest

unfoldable pub string_slice_from_value : Option Value → List String
unfolding strings_from_any
string_slice_from_value (some (texts values)) = values
string_slice_from_value (some (items values)) = strings_from_any (strings_of values)
string_slice_from_value _ = []

unfoldable pub nested_roles : Option Value → List String
unfolding string_slice_from_value
nested_roles (some (object access)) = string_slice_from_value (lookup "roles" (to_dict access))
nested_roles _ = []

unfoldable pub roles_from_claims : Dict Value → List String
unfolding nested_roles
roles_from_claims claims =
    let roles = nested_roles (lookup "realm_access" claims) in
    if is_empty roles then string_slice_from_value (lookup "roles" claims) else roles

unfoldable pub groups_from_claims : Dict Value → List String
unfolding string_slice_from_value
groups_from_claims claims = string_slice_from_value (lookup "groups" claims)

unfoldable pub set_present : String → String → Dict Value → Dict Value
set_present key v m = if v == "" then m else insert key (text v) m

unfoldable pub tenant_context_to_map : Option TenantContext → Dict Value
unfolding set_present
tenant_context_to_map none = []
tenant_context_to_map (some tc) = set_present "timezone" tc.timezone (
    set_present "locale" tc.locale (
      set_present "status" tc.status
        (set_present "tenant_slug" tc.tenant_slug (set_present "tenant_id" tc.tenant_id []))))

unfoldable pub string_from_map : Dict Value → String → String
string_from_map m key = text_or_empty (lookup key m)

-- structpb.NewStruct, `none` for its error; AsMap; and strings.Fields.
pub record Structs (S : Type 0) : Type 0 where
  pub new_struct : Dict Value → Option S
  pub as_map : S → Dict Value
  pub fields : String → List String

infixl 5 ◌>>=◌
abbrev pub ◌>>=◌ : {A B : Type 0} → Option A → (A → Option B) → Option B
none >>= f = none
some a >>= f = f a

-- The zero time.Time as a Unix time.
abbrev pub unix : Option ℤ → ℤ
unix none = negsuc 62135596799
unix (some t) = t

-- The user of a subject, the principal's roles, the claims and the tenant.
unfoldable pub user_of : String → List String → Dict Value → Dict Value → Option SessionUser
unfolding strings_from_any roles_from_claims groups_from_claims string_from_map
user_of subject named claims tenant =
    let own = strings_from_any named in
    let roles = if is_empty own then roles_from_claims claims else own in
    let groups = groups_from_claims claims in
    let sub = if subject == "" then string_from_map claims "sub" else subject in
    if sub == "" && is_empty claims && is_empty roles && is_empty groups
    then none
    else some (record {
      sub = sub;
      email = string_from_map claims "email";
      preferred_username = string_from_map claims "preferred_username";
      name = string_from_map claims "name";
      roles = roles;
      groups = groups;
      is_admin = any (λ role. role == "admin" || role == "administrator") roles;
      tenant_context = if is_empty tenant then none else some tenant;
      claims = claims;
    })

module _ {S : Type 0} (structs : Structs S) where
  unfoldable pub scopes_from_claims : Dict Value → List String
  unfolding string_slice_from_value
  scopes_from_claims claims =
      let listed = string_slice_from_value (lookup "scopes" claims) in
      elim (lookup "scope" claims) [
        | some (text raw) ↦
            let parts = structs.fields raw in if is_empty parts then listed else parts
        | _ ↦ listed
      ]

  unfoldable pub principal_from_session : Session → Principal
  unfolding string_from_map scopes_from_claims roles_from_claims tenant_context_to_map
  principal_from_session sess =
      let claims = entries sess.claims in
      record {
        subject = string_from_map claims "sub";
        scopes = scopes_from_claims claims;
        roles = roles_from_claims claims;
        claims = some claims;
        expires_at = some sess.expires_at;
        access_token = sess.access_token;
        tenant_context = some (tenant_context_to_map sess.tenant_context);
      }

  unfoldable pub principal_to_proto : Principal → Option (ProtoPrincipal S)
  principal_to_proto p = do
    claims ← structs.new_struct (entries p.claims)
    tenant ← structs.new_struct (entries p.tenant_context)
    some (record {
      subject = p.subject;
      scopes = p.scopes;
      roles = p.roles;
      claims = some claims;
      tenant_context = some tenant;
      access_token = p.access_token;
      expires_at = unix p.expires_at;
    })

  unfoldable pub session_to_proto : Session → Option (ProtoSession S)
  unfolding tenant_context_to_map
  session_to_proto sess = do
    claims ← structs.new_struct (entries sess.claims)
    tenant ← structs.new_struct (tenant_context_to_map sess.tenant_context)
    some (record {
      id = sess.id;
      access_token = sess.access_token;
      refresh_token = sess.refresh_token;
      id_token = sess.id_token;
      expires_at = sess.expires_at;
      claims = some claims;
      tenant_context = some tenant;
    })

  -- A message in `m`, nil in Go where there is none.
  unfoldable pub map_of : Option S → Dict Value
  map_of none = []
  map_of (some s) = structs.as_map s

  unfoldable pub claims_of : AuthContext S → Dict Value
  unfolding map_of
  claims_of ctx =
      let own : Dict Value = elim ctx.principal [ none ↦ [] | some p ↦ map_of p.claims ] in
      let kept : Dict Value = elim ctx.session [ none ↦ [] | some s ↦ map_of s.claims ] in
      if is_empty own then kept else own

  unfoldable pub tenant_map_of : AuthContext S → Dict Value
  unfolding map_of
  tenant_map_of ctx =
      let own : Dict Value = elim ctx.principal [ none ↦ [] | some p ↦ map_of p.tenant_context ] in
      let kept : Dict Value = elim ctx.session [ none ↦ [] | some s ↦ map_of s.tenant_context ] in
      if is_empty own then kept else own

  unfoldable pub session_user_from_auth_context : AuthContext S → Option SessionUser
  unfolding user_of claims_of tenant_map_of
  session_user_from_auth_context ctx =
      let subject : String = elim ctx.principal [ none ↦ "" | some p ↦ p.subject ] in
      let roles : List String = elim ctx.principal [ none ↦ [] | some p ↦ p.roles ] in
      user_of subject roles (claims_of ctx) (tenant_map_of ctx)

  unfoldable pub session_response_from_auth_context : Option (AuthContext S) → SessionResponse
  unfolding session_user_from_auth_context
  session_response_from_auth_context none = none
  session_response_from_auth_context (some ctx) =
      if not (is_some ctx.principal) && not (is_some ctx.session)
      then none
      else session_user_from_auth_context ctx

  unfoldable principal_part : Option Principal → Option (Option (ProtoPrincipal S))
  unfolding principal_to_proto
  principal_part none = some none
  principal_part (some p) = map some (principal_to_proto p)

  unfoldable session_part : Option Session → Option (Option (ProtoSession S))
  unfolding session_to_proto
  session_part none = some none
  session_part (some sess) = map some (session_to_proto sess)

  unfoldable derived : Option Principal → Option Session → Option Principal
  unfolding principal_from_session
  derived none (some sess) = some (principal_from_session sess)
  derived p sess = p

  -- `none` is structpb's error.
  unfoldable pub auth_context_from_principal_and_session :
      Option Principal → Option Session → Option (AuthContext S)
  unfolding derived principal_part session_part
  auth_context_from_principal_and_session principal sess = do
    p ← principal_part (derived principal sess)
    s ← session_part sess
    some (record { principal = p; session = s })

  unfoldable pub auth_context_from_session : Option Session → Option (AuthContext S)
  unfolding auth_context_from_principal_and_session
  auth_context_from_session sess = auth_context_from_principal_and_session none sess

  unfoldable pub session_user_from_session : Option Session → Option SessionUser
  unfolding auth_context_from_session session_response_from_auth_context
  session_user_from_session none = none
  session_user_from_session (some sess) = elim (auth_context_from_session (some sess)) [
    | none ↦ none
    | some ctx ↦ session_response_from_auth_context (some ctx)
  ]
