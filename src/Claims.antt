-- ===== src/Claims.antt =====
-- The Go values that a decoded JSON document or a claims map holds: `any`, []any, []string and
-- map[string]any. A float64 is given by its 64 bits; strconv's formatting is a parameter where the
-- code calls it.
use accessgate.Base.{ℕ, String, Bool, Option, none, some, List, [], ◌∷◌}
use accessgate.Base.Int.{ℤ}
use accessgate.Base.Dict.{Dict, lookup}

mutual
  pub data Value : Type 0 where
    null : Value
    bool : Bool → Value
    text json_number : String → Value
    float64 : ℕ → Value
    int64 int : ℤ → Value
    object : Fields → Value
    texts : List String → Value
    items : Items → Value

  pub data Fields : Type 0 where
    field : String → Value → Fields → Fields
    no_fields : Fields

  pub data Items : Type 0 where
    item : Value → Items → Items
    no_items : Items

-- A Go map may be nil; reading it finds nothing.
abbrev pub Claims : Type 0
Claims = Option (Dict Value)

unfoldable pub entries : Claims → Dict Value
entries none = []
entries (some m) = m

unfoldable pub to_dict : Fields → Dict Value
to_dict no_fields = []
to_dict (field k v more) = (k, v) ∷ to_dict more

-- `v.(string)`, with "" where the assertion fails.
unfoldable pub text_or_empty : Option Value → String
text_or_empty (some (text s)) = s
text_or_empty _ = ""

-- The strings of a []any; what is no string is passed over.
unfoldable pub strings_of : Items → List String
strings_of no_items = []
strings_of (item (text s) more) = s ∷ strings_of more
strings_of (item _ more) = strings_of more

-- getClaimString of internal/auth/service/service.go.
unfoldable pub get_claim_string : Claims → String → String
unfolding entries text_or_empty
get_claim_string m key = text_or_empty (lookup key (entries m))
