-- ===== src/Redirect/Tests.antt =====
-- Runs of internal/auth/service/redirect.go, and the theorems at sample inputs.
use accessgate.Base.{String, ◌≡◌, refl, Option, none, some, List, [], ◌∷◌, ◌==◌, if◌then◌else◌}
use accessgate.Base.Text.{has_prefix, trim_space, trim_slash}
use accessgate.Redirect.{Url, validate_redirect}
use accessgate.Redirect.Safety.{Outcome, validate_redirect-Outcome}

-- A parser that knows the URLs of the tests.
abbrev sample_parse : String → Option Url
sample_parse s =
    if s == "https://app.example.com"
    then some (record { scheme = "https"; host = "app.example.com"; path = "" })
    else if s == "https://partner.example.com/home"
    then some (record { scheme = "https"; host = "partner.example.com"; path = "/home" })
    else if s == "javascript:alert(1)"
    then some (record { scheme = "javascript"; host = ""; path = "" })
    else none

abbrev base_url : String
base_url = "https://app.example.com/"

abbrev partners : List String
partners = "https://partner.example.com" ∷ []

runs :
    (validate_redirect sample_parse " /app/home " base_url [] ("/app" ∷ [])
      ≡ "https://app.example.com/app/home")
    × (validate_redirect sample_parse "//evil.example.com" base_url [] [] ≡ "")
    × (validate_redirect sample_parse "/\\evil.example.com" base_url [] [] ≡ "")
    × (validate_redirect sample_parse "/other" base_url [] ("/app" ∷ []) ≡ "")
    × (validate_redirect sample_parse "javascript:alert(1)" base_url partners [] ≡ "")
    × (validate_redirect sample_parse "https://partner.example.com/home" base_url partners []
        ≡ "https://partner.example.com/home")
    × (validate_redirect sample_parse "  " base_url [] [] ≡ base_url)
unfolding validate_redirect has_prefix trim_space trim_slash
runs = (refl, refl, refl, refl, refl, refl, refl)

validate_redirect-Outcome_example :
    Outcome sample_parse base_url partners []
      (trim_space "https://partner.example.com/home")
      (validate_redirect sample_parse "https://partner.example.com/home" base_url partners [])
validate_redirect-Outcome_example =
    validate_redirect-Outcome sample_parse base_url partners [] "https://partner.example.com/home"
