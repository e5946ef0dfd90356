-- ===== src/Token/Laws.antt =====
-- What an accepted ID token satisfies, and when it is refused: pkg/token/validate_idtoken.go.
use accessgate.Base.{
  String, ◌≡◌, refl, ◌↔◌, ◌⊎◌, inl, inr, Bool, true, false, ◌&&◌, not, Option, some, List, [], ◌∷◌,
  arith, ◌==◌, eq_iff, any, Bool-cases,
}
use accessgate.Base.Dict.{Dict, lookup}
use accessgate.Base.Result.{ok}
use accessgate.Claims.{Value, text, items, Items, strings_of, text_or_empty}
use accessgate.Token.{Principal, Numbers, audience_matches, principal_of, validate_claims}

-- One of the strings in a list.
pub data Among (a : String) : List String → Type 0 where
  here : {xs : List String} → Among a (a ∷ xs)
  there : {x : String} {xs : List String} → Among a xs → Among a (x ∷ xs)

-- The claim "aud" names the audience: alone, or in a list.
pub data NamesAudience (a : String) : Option Value → Type 0 where
  alone : NamesAudience a (some (text a))
  listed : {xs : Items} → Among a (strings_of xs) → NamesAudience a (some (items xs))

any-Among : (a : String) (xs : List String) → any (λ x. x == a) xs ≡ true → Among a xs
any-Among a [] h = absurd (cc)
any-Among a (x ∷ xs) h = elim (Bool-cases (x == a)) [
  | inl same ↦ rw ((eq_iff x a).0 same) here
  | inr other ↦ there (any-Among a xs (rw other at h))
]

Among-any : {a : String} {xs : List String} → Among a xs → any (λ x. x == a) xs ≡ true
Among-any {a} here = rw ((eq_iff a a).1 refl)
Among-any {a} (there {x} h) = ground (arith, Among-any h)

NamesAudience-of_matches :
    (v : Option Value) (a : String) → audience_matches v a ≡ true → NamesAudience a v
unfolding audience_matches
NamesAudience-of_matches (some (text v)) a h = rw ((eq_iff v a).0 h) alone
NamesAudience-of_matches (some (items xs)) a h = listed (any-Among a (strings_of xs) h)
NamesAudience-of_matches _ a h = absurd (cc)

matches_of_NamesAudience :
    {v : Option Value} {a : String} → NamesAudience a v → audience_matches v a ≡ true
unfolding audience_matches
matches_of_NamesAudience {v} {a} alone = (eq_iff a a).1 refl
matches_of_NamesAudience (listed h) = Among-any h

-- What the checks ask of the claims: the expected audience is named and the expected nonce is the
-- claim's, each unless none is expected.
pub record IsAccepted (claims : Dict Value) (audience nonce : String) : Type 0 where
  pub for_audience : (audience ≡ "") ⊎ NamesAudience audience (lookup "aud" claims)
  pub with_nonce : (nonce ≡ "") ⊎ (text_or_empty (lookup "nonce" claims) ≡ nonce)

audience_fails : Dict Value → String → Bool
audience_fails claims audience =
    not (audience == "") && not (audience_matches (lookup "aud" claims) audience)

nonce_fails : Dict Value → String → Bool
nonce_fails claims nonce = not (nonce == "") && not (text_or_empty (lookup "nonce" claims) == nonce)

audience_iff :
    (claims : Dict Value) (audience : String)
    → (audience_fails claims audience ≡ false)
      ↔ ((audience ≡ "") ⊎ NamesAudience audience (lookup "aud" claims))
unfolding audience_fails
audience_iff claims audience = (
  λ h. elim (Bool-cases (audience == "")) [
    | inl free ↦ inl ((eq_iff _ _).0 free)
    | inr asked ↦ inr (NamesAudience-of_matches _ audience (ground arith))
  ],
  λ d. elim d [
    | inl free ↦ rw ((eq_iff _ _).1 free)
    | inr named ↦ ground (arith, matches_of_NamesAudience named)
  ],
)

nonce_iff :
    (claims : Dict Value) (nonce : String)
    → (nonce_fails claims nonce ≡ false)
      ↔ ((nonce ≡ "") ⊎ (text_or_empty (lookup "nonce" claims) ≡ nonce))
unfolding nonce_fails
nonce_iff claims nonce =
    ground (arith, eq_iff nonce "", eq_iff (text_or_empty (lookup "nonce" claims)) nonce)

validate_claims-eq :
    (numbers : Numbers) (claims : Dict Value) (audience nonce : String) (p : Principal)
    → (validate_claims numbers claims audience nonce ≡ ok p) ↔ (
        (audience_fails claims audience ≡ false)
        × (nonce_fails claims nonce ≡ false)
        × (p ≡ principal_of numbers claims))
unfolding validate_claims audience_fails nonce_fails
validate_claims-eq numbers claims audience nonce p = ground arith

-- The claims are accepted exactly when the audience and the nonce are as expected, and the
-- principal is then the one that the claims describe.
pub validate_claims-IsAccepted_iff :
    (numbers : Numbers) (claims : Dict Value) (audience nonce : String) (p : Principal)
    → (validate_claims numbers claims audience nonce ≡ ok p)
      ↔ (IsAccepted claims audience nonce × (p ≡ principal_of numbers claims))
validate_claims-IsAccepted_iff numbers claims audience nonce p =
    let (to, from) = validate_claims-eq numbers claims audience nonce p in
    let (aud_to, aud_from) = audience_iff claims audience in
    let (nonce_to, nonce_from) = nonce_iff claims nonce in
    (
      λ h. let (a, n, e) = to h in (record { for_audience = aud_to a; with_nonce = nonce_to n }, e),
      λ (acc, e). from (aud_from acc.for_audience, nonce_from acc.with_nonce, e),
    )
