-- ===== src/Sdk/Users.antt =====
-- The session user that pkg/sdk/context.go derives from a session.
use accessgate.Base.{
  String, ◌==◌, ◌≡◌, refl, ap, ◌&&◌, Bool, true, false, ◌||◌, Option, none, some, List, [], ◌∷◌,
  any, is_empty, if◌then◌else◌, inl, inr, ◌⊎◌, eq_iff, Bool-cases,
}
use accessgate.Base.Dict.{Dict, lookup}
use accessgate.Claims.{Value, entries, text_or_empty, get_claim_string}
use accessgate.Session.{Session}
use accessgate.Sdk.{
  SessionUser, AuthContext, scopes_from_claims, Structs, strings_from_any, roles_from_claims,
  groups_from_claims, string_from_map, tenant_context_to_map, principal_from_session,
  principal_to_proto, session_to_proto, map_of, user_of, claims_of, tenant_map_of, principal_part,
  session_part, derived, session_user_from_auth_context, session_response_from_auth_context,
  auth_context_from_principal_and_session, auth_context_from_session, session_user_from_session,
}

-- The user's names are those of the session's claims, and it is an admin exactly when one of the
-- roles in the claims is an admin's.
pub record IsUserOf (sess : Session) (u : SessionUser) : Type 0 where
  pub sub : u.sub ≡ get_claim_string sess.claims "sub"
  pub email : u.email ≡ get_claim_string sess.claims "email"
  pub name : u.name ≡ get_claim_string sess.claims "name"
  pub username : u.preferred_username ≡ get_claim_string sess.claims "preferred_username"
  pub groups : u.groups ≡ groups_from_claims (entries sess.claims)
  pub admin :
      u.is_admin
      ≡ any (λ r. r == "admin" || r == "administrator") (roles_from_claims (entries sess.claims))
  pub claims : u.claims ≡ entries sess.claims
  pub tenant : entries u.tenant_context ≡ tenant_context_to_map sess.tenant_context

any-strings_from_any :
    (rs : List String)
    → any (λ r. r == "admin" || r == "administrator") (strings_from_any rs)
      ≡ any (λ r. r == "admin" || r == "administrator") rs
unfolding strings_from_any
any-strings_from_any [] = refl
any-strings_from_any (r ∷ rs) =
    let below = any-strings_from_any rs in
    elim (Bool-cases (r == "")) [
      | inl blank ↦ rw ((eq_iff r "").0 blank, strings_from_any, below)
      | inr other ↦ rw (other, strings_from_any, below)
    ]

if_same : {A : Type 0} (b : Bool) (x : A) → (if b then x else x) ≡ x
if_same true x = refl
if_same false x = refl

-- What is made of a session: no user for one without claims, and its user for any other.
abbrev pub IsShown : Session → Option SessionUser → Type 0
IsShown sess shown =
    ((is_empty (entries sess.claims) ≡ true) × (shown ≡ none))
    ⊎ ((u : SessionUser) × (is_empty (entries sess.claims) ≡ false)
        × (shown ≡ some u)
        × IsUserOf sess u)

abbrev user_from : Session → Dict Value → Option SessionUser
user_from sess m =
    user_of (string_from_map m "sub") (roles_from_claims m) m
      (tenant_context_to_map sess.tenant_context)

kept_tenant : (m : Dict Value) → entries (if is_empty m then none else some m) ≡ m
unfolding entries
kept_tenant [] = refl
kept_tenant (e ∷ m) = refl

admin_kept :
    (rs : List String)
    → any
        (λ r. r == "admin" || r == "administrator")
        (if is_empty (strings_from_any rs) then rs else strings_from_any rs)
      ≡ any (λ r. r == "admin" || r == "administrator") rs
admin_kept rs = elim (Bool-cases (is_empty (strings_from_any rs))) [
  | inl nothing ↦ rw nothing
  | inr something ↦ rw (something, any-strings_from_any rs)
]

abbrev user_for : Session → Dict Value → SessionUser
user_for sess m =
    let roles = roles_from_claims m in
    let named = strings_from_any roles in
    let all = if is_empty named then roles else named in
    let tenant = tenant_context_to_map sess.tenant_context in
    let sub = string_from_map m "sub" in
    record {
      sub = if sub == "" then sub else sub;
      email = string_from_map m "email";
      preferred_username = string_from_map m "preferred_username";
      name = string_from_map m "name";
      roles = all;
      groups = groups_from_claims m;
      is_admin = any (λ role. role == "admin" || role == "administrator") all;
      tenant_context = if is_empty tenant then none else some tenant;
      claims = m;
    }

none_of : (a b c : Bool) → (a && false && b && c) ≡ false
none_of true b c = refl
none_of false b c = refl

user_from-some :
    (sess : Session) (e : String × Value) (more : Dict Value)
    → user_from sess (e ∷ more) ≡ some (user_for sess (e ∷ more))
unfolding user_of
user_from-some sess e more =
    ap (λ b. if b then none else some (user_for sess (e ∷ more))) (none_of _ _ _)

user_from-for :
    (sess : Session) (m : Dict Value)
    → user_from sess m ≡ (if is_empty m then none else some (user_for sess m))
unfolding user_of string_from_map roles_from_claims groups_from_claims lookup text_or_empty
user_from-for sess [] = refl
user_from-for sess (e ∷ more) = user_from-some sess e more

user_for-IsUserOf : (sess : Session) → IsUserOf sess (user_for sess (entries sess.claims))
unfolding get_claim_string string_from_map
user_for-IsUserOf sess =
    let m = entries sess.claims in
    record {
      sub = if_same _ (string_from_map m "sub");
      email = refl;
      name = refl;
      username = refl;
      groups = refl;
      admin = admin_kept (roles_from_claims m);
      claims = refl;
      tenant = kept_tenant (tenant_context_to_map sess.tenant_context);
    }

user_from-IsShown : (sess : Session) → IsShown sess (user_from sess (entries sess.claims))
user_from-IsShown sess =
    let made = user_from-for sess (entries sess.claims) in
    elim (Bool-cases (is_empty (entries sess.claims))) [
      | inl nothing ↦ inl (nothing, rw nothing at made)
      | inr something ↦ inr (
        user_for sess (entries sess.claims),
        something,
        rw something at made,
        user_for-IsUserOf sess,
      )
    ]

module _ {S : Type 0} (structs : Structs S) (sess : Session) (c t : S) where
  abbrev context : AuthContext S
  context = record {
    principal = some (record {
      subject = get_claim_string sess.claims "sub";
      scopes = scopes_from_claims structs (entries sess.claims);
      roles = roles_from_claims (entries sess.claims);
      claims = some c;
      tenant_context = some t;
      access_token = sess.access_token;
      expires_at = sess.expires_at;
    });
    session = some (record {
      id = sess.id;
      access_token = sess.access_token;
      refresh_token = sess.refresh_token;
      id_token = sess.id_token;
      expires_at = sess.expires_at;
      claims = some c;
      tenant_context = some t;
    });
  }

  auth_context_from_session-context :
      structs.new_struct (entries sess.claims) ≡ some c
      → structs.new_struct (tenant_context_to_map sess.tenant_context) ≡ some t
      → auth_context_from_session structs (some sess) ≡ some context
  unfolding auth_context_from_session auth_context_from_principal_and_session derived principal_part
      session_part session_to_proto principal_to_proto principal_from_session get_claim_string
      string_from_map entries
  auth_context_from_session-context claims tenant = rw (claims, tenant)

  claims_of-context : claims_of structs context ≡ structs.as_map c
  unfolding claims_of map_of
  claims_of-context = if_same _ (structs.as_map c)

  tenant_map_of-context : tenant_map_of structs context ≡ structs.as_map t
  unfolding tenant_map_of map_of
  tenant_map_of-context = if_same _ (structs.as_map t)

  derived_user :
      structs.new_struct (entries sess.claims) ≡ some c
      → structs.new_struct (tenant_context_to_map sess.tenant_context) ≡ some t
      → session_user_from_session structs (some sess)
        ≡ user_of
            (get_claim_string sess.claims "sub")
            (roles_from_claims (entries sess.claims))
            (structs.as_map c)
            (structs.as_map t)
  unfolding session_user_from_session session_response_from_auth_context
      session_user_from_auth_context
  derived_user claims tenant = rw (
    auth_context_from_session-context claims tenant,
    session_user_from_session,
    claims_of-context,
    tenant_map_of-context,
  )

  pub session_user_from_session-IsShown :
      structs.new_struct (entries sess.claims) ≡ some c
      → structs.new_struct (tenant_context_to_map sess.tenant_context) ≡ some t
      → structs.as_map c ≡ entries sess.claims
      → structs.as_map t ≡ tenant_context_to_map sess.tenant_context
      → IsShown sess (session_user_from_session structs (some sess))
  unfolding get_claim_string string_from_map
  session_user_from_session-IsShown claims tenant same_claims same_tenant =
      rw (derived_user claims tenant, same_claims, same_tenant) (user_from-IsShown sess)
