-- ===== src/Redirect/Checks.antt =====
-- What the tests of internal/auth/service/redirect.go on a path and an origin mean.
use accessgate.Base.{
  String, ◌≡◌, refl, ◌≢◌, ◌⊎◌, inl, inr, true, false, Option, some, List, [], ◌∷◌, ◌↔◌,
  if◌then◌else◌, arith, ◌==◌, eq_iff, Bool-cases, Option-cases, ◌||◌, any,
}
use accessgate.Base.Text.{strip_prefix?, has_prefix, has_prefix_iff, trim_space}
use accessgate.Redirect.{
  Url, origin_of, same_origin, leaves_host, some_prefix, path_allowed, origin_allowed, ◌++◌,
}

-- Under one of the prefixes, of which "/" takes every path.
abbrev pub IsUnderOne : List String → String → Type 0
IsUnderOne [] path = ⊥
IsUnderOne (p ∷ prefixes) path =
    (p ≡ "/") ⊎ ((rest : String) × (path ≡ p ++ rest)) ⊎ IsUnderOne prefixes path

-- No prefixes allow every path.
abbrev pub IsUnder : List String → String → Type 0
IsUnder prefixes path = (prefixes ≡ []) ⊎ IsUnderOne prefixes path

some_prefix_iff :
    (prefixes : List String) (path : String)
    → (some_prefix prefixes path ≡ true) ↔ IsUnderOne prefixes path
unfolding some_prefix
some_prefix_iff [] path = (λ h. absurd (cc), λ h. absurd h)
some_prefix_iff (p ∷ prefixes) path =
    let more = some_prefix_iff prefixes path in
    (
      λ h. elim (Bool-cases (p == "/")) [
        | inl root ↦ inl ((eq_iff p "/").0 root)
        | inr other ↦ elim (Bool-cases (has_prefix path p)) [
          | inl under ↦ inr (inl ((has_prefix_iff path p).0 under))
          | inr outside ↦ inr (inr (more.0 (rw (other, outside, some_prefix) at h)))
        ]
      ],
      λ u. elim u [
        | inl root ↦ ground (arith, (eq_iff p "/").1 root)
        | inr (inl under) ↦ ground (arith, (has_prefix_iff path p).1 under)
        | inr (inr below) ↦ ground (arith, more.1 below)
      ],
    )

pub path_allowed_iff :
    (prefixes : List String) (path : String)
    → (path_allowed prefixes path ≡ true) ↔ IsUnder prefixes path
unfolding path_allowed
path_allowed_iff [] path = (λ h. inl refl, λ h. refl)
path_allowed_iff (p ∷ prefixes) path =
    let one = some_prefix_iff (p ∷ prefixes) path in
    (λ h. inr (one.0 h), λ u. elim u [ inl e ↦ absurd (cc) | inr below ↦ one.1 below ])

abbrev pub IsAmong : String → List String → Type 0
IsAmong origin [] = ⊥
IsAmong origin (o ∷ more) = (o ≡ origin) ⊎ IsAmong origin more

any-IsAmong :
    (origin : String) (origins : List String)
    → (any (λ o. o == origin) origins ≡ true) ↔ IsAmong origin origins
any-IsAmong origin [] = (λ h. absurd (cc), λ h. absurd h)
any-IsAmong origin (o ∷ more) =
    let rest = any-IsAmong origin more in
    (
      λ h. elim (Bool-cases (o == origin)) [
        | inl same ↦ inl ((eq_iff o origin).0 same)
        | inr other ↦ inr (rest.0 (rw other at h))
      ],
      λ u. elim u [
        | inl same ↦ ground (arith, (eq_iff o origin).1 same)
        | inr below ↦ ground (arith, rest.1 below)
      ],
    )

pub leaves_host-prefix :
    (target : String)
    → has_prefix target "/" ≡ true
    → leaves_host target ≡ (has_prefix target "//" || has_prefix target "/\\")
unfolding leaves_host has_prefix strip_prefix?
leaves_host-prefix String.[] h = refl
leaves_host-prefix (String.◌∷◌ c String.[]) h = ground arith
leaves_host-prefix (String.◌∷◌ c (String.◌∷◌ d rest)) h = ground arith

module _ (parse : String → Option Url) (base_url : String) (origins prefixes : List String) where
  -- The origin of the base URL, which names a scheme and a host.
  pub record IsOwn (origin : String) : Type 0 where
    pub base : Url
    pub parsed : parse (trim_space base_url) ≡ some base
    pub scheme : base.scheme ≢ ""
    pub host : base.host ≢ ""
    pub same : origin ≡ origin_of base

  -- The base URL's origin, or one of the allowed ones.
  abbrev pub IsOrigin : String → Type 0
  IsOrigin origin = IsOwn origin ⊎ IsAmong origin origins

  compared-IsOwn :
      (origin : String) (base : Url)
      → parse (trim_space base_url) ≡ some base
      → (if base.scheme == "" || base.host == "" then false else origin == origin_of base) ≡ true
      → IsOwn origin
  compared-IsOwn origin base parsed h = record {
    base = base;
    parsed = parsed;
    scheme = ground (arith, eq_iff base.scheme "");
    host = ground (arith, eq_iff base.host "");
    same = ground (arith, eq_iff origin (origin_of base));
  }

  same_origin_iff : (origin : String) → (same_origin parse origin base_url ≡ true) ↔ IsOwn origin
  unfolding same_origin
  same_origin_iff origin = (
    λ h. elim (Option-cases (parse (trim_space base_url))) [
      | inl unparsed ↦ absurd (cc (rw (unparsed, same_origin) at h))
      | inr (base, parsed) ↦ compared-IsOwn origin base parsed (rw (parsed, same_origin) at h)
    ],
    λ o.
        rw (o.parsed, same_origin)
          (ground (
            arith,
            o.scheme,
            o.host,
            o.same,
            eq_iff o.base.scheme "",
            eq_iff o.base.host "",
            eq_iff origin (origin_of o.base),
          )),
  )

  pub origin_allowed_iff :
      (origin : String) → (origin_allowed parse origins origin base_url ≡ true) ↔ IsOrigin origin
  unfolding origin_allowed
  origin_allowed_iff origin = (
    λ h. elim (Bool-cases (same_origin parse origin base_url)) [
      | inl own ↦ inl ((same_origin_iff origin).0 own)
      | inr other ↦ inr ((any-IsAmong origin origins).0 (rw (other, origin_allowed) at h))
    ],
    λ o. elim o [
      | inl own ↦ ground (arith, (same_origin_iff origin).1 own)
      | inr listed ↦ ground (arith, (any-IsAmong origin origins).1 listed)
    ],
  )
