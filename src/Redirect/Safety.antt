-- ===== src/Redirect/Safety.antt =====
-- What `validate_redirect` may return: internal/auth/service/redirect.go.
use mathlib.Core.Path.{subst}
use mathlib.Core.Option.{some-injective}
use accessgate.Base.{
  String, ◌≡◌, ◌∙◌, refl, ◌≢◌, ◌⊎◌, inl, inr, Bool, true, false, Option, none, some, List,
  if◌then◌else◌, ◌&&◌, arith, ◌==◌, eq_iff, Bool-cases, Option-cases, ◌||◌,
}
use accessgate.Base.Text.{has_prefix, trim_space, trim_slash}
use accessgate.Redirect.{
  Url, origin_of, leaves_host, path_allowed, origin_allowed, validate_redirect, ◌++◌,
  local_redirect, absolute_redirect,
}
use accessgate.Redirect.Checks.{
  IsUnder, path_allowed_iff, leaves_host-prefix, IsOrigin, origin_allowed_iff,
}

module _ (parse : String → Option Url) (base_url : String) (origins prefixes : List String) where
  -- A path, which names no other host by a second slash or a backslash, under an allowed prefix.
  pub record IsLocal (target : String) : Type 0 where
    pub nonempty : target ≢ ""
    pub rooted : has_prefix target "/" ≡ true
    pub single : has_prefix target "//" ≡ false
    pub forward : has_prefix target "/\\" ≡ false
    pub allowed : IsUnder prefixes target

  -- An absolute URL of an allowed origin, under an allowed prefix.
  pub record IsAbsolute (target : String) (u : Url) : Type 0 where
    pub nonempty : target ≢ ""
    pub unrooted : has_prefix target "/" ≡ false
    pub parsed : parse target ≡ some u
    pub scheme : (u.scheme ≡ "https") ⊎ (u.scheme ≡ "http")
    pub origin : IsOrigin parse base_url origins prefixes (origin_of u)
    pub allowed : IsUnder prefixes u.path

  -- The four outcomes, for the trimmed target and the result.
  pub data Outcome (target : String) : String → Type 0 where
    nothing_asked : {r : String} → target ≡ "" → r ≡ base_url → Outcome target r
    local_path :
        {r : String} → IsLocal target → r ≡ trim_slash base_url ++ target → Outcome target r
    absolute : {r : String} (u : Url) → IsAbsolute target u → r ≡ target → Outcome target r
    refused :
        {r : String}
        → target ≢ ""
        → ¬ IsLocal target
        → ((u : Url) → ¬ IsAbsolute target u)
        → r ≡ ""
        → Outcome target r

  abbrev result : String → String
  result redirect_to = validate_redirect parse redirect_to base_url origins prefixes

  -- The two tests on a local path, as the code makes them.
  IsLocal-tests :
      (target : String)
      → has_prefix target "/" ≡ true
      → (IsLocal target → (leaves_host target ≡ false) × (path_allowed prefixes target ≡ true))
  IsLocal-tests target rooted l = (
    leaves_host-prefix target rooted ∙ ground (arith, l.single, l.forward),
    (path_allowed_iff prefixes target).1 l.allowed,
  )

  tested-IsLocal :
      (target : String)
      → target ≢ ""
      → has_prefix target "/" ≡ true
      → leaves_host target ≡ false
      → path_allowed prefixes target ≡ true
      → IsLocal target
  tested-IsLocal target full rooted stays allowed =
      let same = leaves_host-prefix target rooted in
      record {
        nonempty = full;
        rooted = rooted;
        single = ground arith;
        forward = ground arith;
        allowed = (path_allowed_iff prefixes target).0 allowed;
      }

  local_redirect-Outcome :
      (target : String)
      → target ≢ ""
      → has_prefix target "/" ≡ true
      → Outcome target (local_redirect parse target base_url prefixes)
  unfolding local_redirect
  local_redirect-Outcome target full rooted = elim (Bool-cases (leaves_host target)) [
    | inl leaves ↦ rw leaves (
        refused full (λ l. cc ((IsLocal-tests target rooted l).0, leaves))
          (λ u a. cc (a.unrooted, rooted)) refl)
    | inr stays ↦ elim (Bool-cases (path_allowed prefixes target)) [
      | inl allowed ↦
          rw (stays, allowed) (local_path (tested-IsLocal target full rooted stays allowed) refl)
      | inr denied ↦
          rw (stays, denied)
            (refused full (λ l. cc ((IsLocal-tests target rooted l).1, denied))
              (λ u a. cc (a.unrooted, rooted)) refl)
    ]
  ]

  -- Only the URL that the parser returns can qualify.
  not-IsAbsolute :
      (target : String) (u : Url)
      → parse target ≡ some u
      → ¬ IsAbsolute target u
      → (v : Url) → ¬ IsAbsolute target v
  not-IsAbsolute target u parsed unfit v a =
      unfit (subst (IsAbsolute target) (some-injective v u (cc (a.parsed))) a)

  not-IsLocal : (target : String) → has_prefix target "/" ≡ false → ¬ IsLocal target
  not-IsLocal target unrooted l = cc (l.rooted)

  -- The checks on a parsed URL, as one test.
  fit : Url → Bool
  fit u =
      (u.scheme == "https" || u.scheme == "http")
      && (origin_allowed parse origins (origin_of u) base_url && path_allowed prefixes u.path)

  IsAbsolute-of_fit :
      (target : String) (u : Url)
      → target ≢ ""
      → has_prefix target "/" ≡ false
      → parse target ≡ some u
      → fit u ≡ true
      → IsAbsolute target u
  unfolding fit
  IsAbsolute-of_fit target u full unrooted parsed h = record {
    nonempty = full;
    unrooted = unrooted;
    parsed = parsed;
    scheme = ground (arith, eq_iff u.scheme "https", eq_iff u.scheme "http");
    origin = (origin_allowed_iff parse base_url origins prefixes (origin_of u)).0 (ground arith);
    allowed = (path_allowed_iff prefixes u.path).0 (ground arith);
  }

  fit_of_IsAbsolute : (target : String) (u : Url) → IsAbsolute target u → fit u ≡ true
  unfolding fit
  fit_of_IsAbsolute target u a = ground (
    arith,
    a.scheme,
    (origin_allowed_iff parse base_url origins prefixes (origin_of u)).1 a.origin,
    (path_allowed_iff prefixes u.path).1 a.allowed,
    eq_iff u.scheme "https",
    eq_iff u.scheme "http",
  )

  absolute_redirect-fit :
      (target : String) (u : Url)
      → parse target ≡ some u
      → absolute_redirect parse target base_url origins prefixes ≡ (if fit u then target else "")
  unfolding absolute_redirect fit
  absolute_redirect-fit target u parsed = ground arith

  absolute_redirect-unparsed :
      (target : String)
      → parse target ≡ none
      → absolute_redirect parse target base_url origins prefixes ≡ ""
  unfolding absolute_redirect
  absolute_redirect-unparsed target unparsed = ground arith

  absolute_redirect-Outcome :
      (target : String)
      → target ≢ ""
      → has_prefix target "/" ≡ false
      → Outcome target (absolute_redirect parse target base_url origins prefixes)
  absolute_redirect-Outcome target full unrooted = elim (Option-cases (parse target)) [
    | inl unparsed ↦
        refused full (not-IsLocal target unrooted) (λ u a. cc (a.parsed))
          (absolute_redirect-unparsed target unparsed)
    | inr (u, parsed) ↦ rw (absolute_redirect-fit target u parsed) (elim (Bool-cases (fit u)) [
      | inl yes_fit ↦
          rw yes_fit (absolute u (IsAbsolute-of_fit target u full unrooted parsed yes_fit) refl)
      | inr unfit ↦ rw unfit (
          refused full (not-IsLocal target unrooted)
            (not-IsAbsolute target u parsed (λ a. cc (fit_of_IsAbsolute target u a))) refl)
    ])
  ]

  -- The result is the base URL for a blank request, the base URL joined with an allowed local path,
  -- the requested URL itself when it parses, is http or https, and has an allowed origin and path,
  -- and is empty when neither description fits the trimmed request.
  pub validate_redirect-Outcome :
      (redirect_to : String) → Outcome (trim_space redirect_to) (result redirect_to)
  unfolding validate_redirect
  validate_redirect-Outcome redirect_to = elim (Bool-cases (trim_space redirect_to == "")) [
    | inl blank ↦ rw blank (nothing_asked ((eq_iff _ _).0 blank) refl)
    | inr asked ↦ elim (Bool-cases (has_prefix (trim_space redirect_to) "/")) [
      | inl rooted ↦
          rw (asked, rooted) (local_redirect-Outcome _ (λ e. cc ((eq_iff _ _).1 e, asked)) rooted)
      | inr unrooted ↦
          rw (asked, unrooted)
            (absolute_redirect-Outcome _ (λ e. cc ((eq_iff _ _).1 e, asked)) unrooted)
    ]
  ]
