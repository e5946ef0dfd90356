-- ===== src/Redirect.antt =====
-- Redirect validation: internal/auth/service/redirect.go. net/url's parser is not in the
-- repository: it is the parameter `parse`, `none` where url.Parse returns an error.
pub mod Checks
pub mod Safety
mod Tests
use Prim.Native.String
use accessgate.Base.{
  String, ◌==◌, Bool, false, ◌&&◌, ◌||◌, not, Option, none, some, List, any, is_empty,
  if◌then◌else◌,
}
use accessgate.Base.Text.{is, has_prefix, trim_space, trim_slash}

pub record Url : Type 0 where
  pub scheme : String
  pub host : String
  pub path : String

infixr 65 ◌++◌
abbrev pub ◌++◌ : String → String → String
a ++ b = String.◌++◌ a b

abbrev pub origin_of : Url → String
origin_of u = u.scheme ++ ("://" ++ u.host)

-- `len(redirectTo) > 1 && (redirectTo[1] == '/' || redirectTo[1] == '\\')`
unfoldable pub leaves_host : String → Bool
leaves_host (String.◌∷◌ _ (String.◌∷◌ d _)) = is b'/' d || is 0x5c d
leaves_host _ = false

-- The loop over allowedPathPrefixes.
unfoldable pub some_prefix : List String → String → Bool
some_prefix prefixes path = any (λ p. p == "/" || has_prefix path p) prefixes

unfoldable pub path_allowed : List String → String → Bool
unfolding some_prefix
path_allowed prefixes path = is_empty prefixes || some_prefix prefixes path

module _ (parse : String → Option Url) where
  unfoldable pub same_origin : String → String → Bool
  same_origin origin base_url = elim (parse (trim_space base_url)) [
    | none ↦ false
    | some base ↦ if base.scheme == "" || base.host == "" then false else origin == origin_of base
  ]

  unfoldable pub origin_allowed : List String → String → String → Bool
  unfolding same_origin
  origin_allowed origins origin base_url =
      same_origin origin base_url || any (λ o. o == origin) origins

  -- The branch for a path on the base URL's host.
  pub local_redirect : String → String → List String → String
  unfolding leaves_host path_allowed
  local_redirect target base_url prefixes =
      if leaves_host target
      then ""
      else if not (path_allowed prefixes target)
      then ""
      else trim_slash base_url ++ target

  -- The branch for a full URL.
  pub absolute_redirect : String → String → List String → List String → String
  unfolding path_allowed origin_allowed
  absolute_redirect target base_url origins prefixes = elim (parse target) [
    | none ↦ ""
    | some u ↦
        if not (u.scheme == "https") && not (u.scheme == "http")
        then ""
        else if not (origin_allowed origins (origin_of u) base_url)
        then ""
        else if not (path_allowed prefixes u.path)
        then ""
        else target
  ]

  unfoldable pub validate_redirect : String → String → List String → List String → String
  unfolding local_redirect absolute_redirect
  validate_redirect redirect_to base_url origins prefixes =
      let target = trim_space redirect_to in
      if target == ""
      then base_url
      else if has_prefix target "/"
      then local_redirect target base_url prefixes
      else absolute_redirect target base_url origins prefixes
