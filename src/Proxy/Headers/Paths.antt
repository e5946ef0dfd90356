-- ===== src/Proxy/Headers/Paths.antt =====
-- What the headers of internal/proxy/headers.go say of the caller.
use Prim.Native.String.{◌++◌}
use accessgate.Base.{
  String, ◌==◌, ◌≡◌, ◌∙◌, eq_iff, true, refl, inl, inr, false, Option, none, some, List, [],
  is_empty, Bool-cases, arith, if◌then◌else◌,
}
use accessgate.Base.Text.{join}
use accessgate.Base.Dict.{Dict, lookup, insert, lookup-insert}
use accessgate.Claims.{Value, Claims}
use accessgate.Proxy.Headers.{
  HeaderConfig, get_claim, set_nonempty, set_joined, is_admin, claim_headers, tenant_of,
  build_upstream_headers,
}

lookup-set_nonempty :
    (name v j : String) (h : Dict String)
    → lookup j (set_nonempty name v h)
      ≡ (if name == j then (if v == "" then lookup j h else some v) else lookup j h)
unfolding set_nonempty
lookup-set_nonempty name v j h = ground (arith, lookup-insert name j v h)

lookup-set_joined :
    (name j : String) (vs : List String) (h : Dict String)
    → lookup j (set_joined name vs h)
      ≡ (if name == j then (if is_empty vs then lookup j h else some (join "," vs)) else lookup j h)
unfolding set_joined
lookup-set_joined name j vs h = ground (arith, lookup-insert name j (join "," vs) h)

get_claim-empty : (m : Claims) → get_claim m "" ≡ ""
unfolding get_claim
get_claim-empty none = refl
get_claim-empty (some m) = refl

-- The first of two texts that is not empty.
abbrev pub first_of : String → String → Option String
first_of a b = if a == "" then (if b == "" then none else some b) else some a

module _ (key c t : String) (h : Dict String) where
  tenanted : Dict String
  tenanted =
      let from_context = set_nonempty "X-Tenant-Id" t h in
      if key == "" then from_context else set_nonempty "X-Tenant-Id" c from_context

  tenanted-last :
      lookup "X-Tenant-Id" h ≡ none
      → ((key == "") ≡ true → c ≡ "")
      → lookup "X-Tenant-Id" tenanted ≡ first_of c t
  unfolding tenanted
  tenanted-last e z = elim (Bool-cases (key == "")) [
    | inl k ↦ rw (k, z k) (ground (arith, e, lookup-set_nonempty "X-Tenant-Id" t "X-Tenant-Id" h))
    | inr k ↦ rw k (
        ground (
          arith,
          e,
          lookup-set_nonempty "X-Tenant-Id" t "X-Tenant-Id" h,
          lookup-set_nonempty "X-Tenant-Id" c "X-Tenant-Id" (set_nonempty "X-Tenant-Id" t h),
        ))
  ]

  tenanted-other : lookup "X-Is-Admin" tenanted ≡ lookup "X-Is-Admin" h
  unfolding tenanted
  tenanted-other = elim (Bool-cases (key == "")) [
    | inl k ↦ rw k (simp lookup-set_nonempty)
    | inr k ↦ rw k (simp lookup-set_nonempty)
  ]

module _ (cfg : HeaderConfig) (token : String) (m : Dict Value) (tenant : Claims) where
  auth : Dict String
  unfolding insert
  auth = if token == "" then [] else insert "Authorization" ("Bearer " ++ token) []

  auth-other : (j : String) → ("Authorization" == j) ≡ false → lookup j auth ≡ none
  unfolding auth lookup insert
  auth-other j e = ground arith

  claimed-tenant :
      (h : Dict String)
      → lookup "X-Tenant-Id" (claim_headers cfg (some m) h) ≡ lookup "X-Tenant-Id" h
  unfolding claim_headers
  claimed-tenant h = simp (lookup-insert, lookup-set_nonempty, lookup-set_joined)

  claimed-admin :
      (h : Dict String)
      → lookup "X-Is-Admin" (claim_headers cfg (some m) h)
        ≡ some (if is_admin cfg (some m) then "true" else "false")
  unfolding claim_headers
  claimed-admin h = simp lookup-insert

  -- With claims, the tenant header is the configured claim, or else the tenant context's id, or
  -- else missing; and the admin header is always there, "true" exactly when an admin role is
  -- configured and the caller has that role or "administrator".
  pub build_upstream_headers-lookup :
      (lookup "X-Tenant-Id" (build_upstream_headers cfg token (some m) tenant)
        ≡ first_of (get_claim (some m) cfg.header_tenant_id_claim) (tenant_of tenant))
      × (lookup "X-Is-Admin" (build_upstream_headers cfg token (some m) tenant)
          ≡ some (if is_admin cfg (some m) then "true" else "false"))
  unfolding build_upstream_headers auth tenanted
  build_upstream_headers-lookup = (
    tenanted-last cfg.header_tenant_id_claim _ (tenant_of tenant) _
        (claimed-tenant auth ∙ auth-other "X-Tenant-Id" refl)
        (λ e. rw ((eq_iff cfg.header_tenant_id_claim "").0 e) (get_claim-empty (some m))),
    tenanted-other cfg.header_tenant_id_claim _ (tenant_of tenant) _ ∙ claimed-admin auth,
  )
