-- ===== src/Token.antt =====
-- The checks of an ID token's claims, and the identity taken from them: pkg/token/claims.go and
-- pkg/token/validate_idtoken.go. golang-jwt's Parse, with the signature, issuer and expiry checks,
-- is not in the repository: these functions start from the claims that it returns.
pub mod Laws
mod Tests
use accessgate.Base.{
  ℕ, String, ◌==◌, Bool, true, false, not, ◌&&◌, Option, none, some, List, [], ◌∷◌, any, is_empty,
  if◌then◌else◌,
}
use accessgate.Base.Int.{ℤ}
use accessgate.Base.Dict.{Dict, lookup, insert}
use accessgate.Base.Result.{Result, ok, err}
use accessgate.Claims.{
  Value, text, json_number, float64, items, texts, object, Claims, to_dict, text_or_empty,
  strings_of,
}

pub record Principal : Type 0 where
  pub subject : String
  pub scopes : List String
  -- nil in Go exactly where it is empty here.
  pub roles : List String
  pub claims : Claims
  -- `none` is the zero time.
  pub expires_at : Option ℤ
  pub access_token : String
  pub tenant_context : Claims

-- Go's int64(f) of a float64, and json.Number's Int64 with its error ignored.
pub record Numbers : Type 0 where
  pub of_float : ℕ → ℤ
  pub of_number : String → ℤ

-- `v.(map[string]any)["roles"].([]any)`, and the strings in it.
unfoldable pub any_texts : Option Value → List String
any_texts (some (items xs)) = strings_of xs
any_texts _ = []

unfoldable pub realm_roles : Option Value → List String
unfolding any_texts
realm_roles (some (object fs)) = any_texts (lookup "roles" (to_dict fs))
realm_roles _ = []

-- The roles of realm_access, or else those of the claim "roles".
unfoldable pub roles_of : Dict Value → List String
unfolding realm_roles
roles_of claims =
    let realm = realm_roles (lookup "realm_access" claims) in
    if is_empty realm then any_texts (lookup "roles" claims) else realm

unfoldable pub normalize_claims : Claims → Claims
unfolding roles_of
normalize_claims none = none
normalize_claims (some claims) =
    let roles = roles_of claims in
    some (if is_empty roles then claims else insert "roles" (texts roles) claims)

unfoldable pub audience_matches : Option Value → String → Bool
audience_matches (some (text v)) audience = v == audience
audience_matches (some (items xs)) audience = any (λ a. a == audience) (strings_of xs)
audience_matches _ audience = false

module _ (numbers : Numbers) where
  expiry_of : Option Value → Option ℤ
  expiry_of (some (float64 t)) = some (numbers.of_float t)
  expiry_of (some (json_number t)) = some (numbers.of_number t)
  expiry_of _ = none

  unfoldable pub principal_of : Dict Value → Principal
  unfolding expiry_of
  principal_of claims = record {
    subject = text_or_empty (lookup "sub" claims);
    scopes = [];
    roles = roles_of claims;
    claims = some claims;
    expires_at = expiry_of (lookup "exp" claims);
    access_token = "";
    tenant_context = none;
  }

  -- ValidateIDToken from the claims of the parsed token on.
  unfoldable pub validate_claims : Dict Value → String → String → Result Principal
  validate_claims claims audience expected_nonce =
      if not (audience == "") && not (audience_matches (lookup "aud" claims) audience)
      then err "token: audience mismatch"
      else if not (expected_nonce == "")
          && not (text_or_empty (lookup "nonce" claims) == expected_nonce)
      then err "token: nonce mismatch"
      else ok (principal_of claims)
