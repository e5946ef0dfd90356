-- ===== src/Token/Tests.antt =====
-- Runs of pkg/token/validate_idtoken.go, and the theorem at sample inputs.
use accessgate.Base.{◌≡◌, refl, ◌↔◌, [], ◌∷◌}
use accessgate.Base.Int.{pos}
use accessgate.Base.Dict.{Dict, lookup}
use accessgate.Base.Result.{ok, err}
use accessgate.Claims.{
  Value, text, items, item, no_items, object, field, no_fields, to_dict, strings_of, text_or_empty,
}
use accessgate.Token.{Numbers, audience_matches, roles_of, principal_of, validate_claims}
use accessgate.Token.Laws.{IsAccepted, validate_claims-IsAccepted_iff}

abbrev numbers : Numbers
numbers = record { of_float = λ n. pos n; of_number = λ s. pos 0 }

abbrev claims : Dict Value
claims =
    ("sub", text "u1")
    ∷ ("aud", items (item (text "other") (item (text "app") no_items)))
    ∷ ("nonce", text "n1")
    ∷ ("realm_access", object (field "roles" (items (item (text "admin") no_items)) no_fields))
    ∷ []

runs :
    (validate_claims numbers claims "app" "n1" ≡ ok (principal_of numbers claims))
    × (validate_claims numbers claims "api" "n1" ≡ err "token: audience mismatch")
    × (validate_claims numbers claims "app" "n2" ≡ err "token: nonce mismatch")
    × (validate_claims numbers claims "" "" ≡ ok (principal_of numbers claims))
    × (roles_of claims ≡ "admin" ∷ [])
unfolding validate_claims audience_matches lookup strings_of text_or_empty roles_of to_dict
runs = (refl, refl, refl, refl, refl)

validate_claims-IsAccepted_iff_example :
    (validate_claims numbers claims "app" "n1" ≡ ok (principal_of numbers claims))
    ↔ (IsAccepted claims "app" "n1" × (principal_of numbers claims ≡ principal_of numbers claims))
validate_claims-IsAccepted_iff_example =
    validate_claims-IsAccepted_iff numbers claims "app" "n1" (principal_of numbers claims)
