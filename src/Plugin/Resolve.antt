-- ===== src/Plugin/Resolve.antt =====
-- Disabled plugins and ResolveByCapability of internal/plugin/registry.go.
use accessgate.Base.{
  String, ◌≡◌, refl, false, none, List, [], ◌∷◌, arith, if◌then◌else◌, eq_iff, ◌==◌, Option-cases,
  inl, inr,
}
use accessgate.Base.Dict.{Dict, lookup, insert, lookup-insert}
use accessgate.Plugin.{
  Registry, Registration, listed, set_enabled, disable, resolve_by_capability, enabled_among,
}

unfoldable pub without : String → List String → List String
without id [] = []
without id (x ∷ xs) = let rest = without id xs in if x == id then rest else x ∷ rest

enabled_among-disabled :
    (id : String) (reg : Registration) (by_id : Dict Registration) (ids : List String)
    → enabled_among (insert id (record reg { enabled = false }) by_id) ids
      ≡ enabled_among by_id (without id ids)
unfolding enabled_among without
enabled_among-disabled id reg by_id [] = refl
enabled_among-disabled id reg by_id (x ∷ xs) = ground (
  arith,
  enabled_among-disabled id reg by_id xs,
  eq_iff x id,
  eq_iff id x,
  lookup-insert id x (record reg { enabled = false }) by_id,
)

enabled_among-unknown :
    (id : String) (by_id : Dict Registration) (ids : List String)
    → lookup id by_id ≡ none
    → enabled_among by_id ids ≡ enabled_among by_id (without id ids)
unfolding enabled_among without
enabled_among-unknown id by_id [] e = refl
enabled_among-unknown id by_id (x ∷ xs) e =
    ground (arith, enabled_among-unknown id by_id xs, eq_iff x id)

-- After Disable, ResolveByCapability answers with the enabled plugins among the capability's
-- providers without the disabled one, and with no others; it does so for an unknown id, too.
pub resolve_by_capability-disable :
    (capability id : String) (r : Registry)
    → resolve_by_capability capability (disable id r).1
      ≡ enabled_among r.by_id (without id (listed capability r.by_capability))
unfolding resolve_by_capability disable set_enabled
resolve_by_capability-disable capability id r = elim (Option-cases (lookup id r.by_id)) [
  | inl e ↦
      rw (e, set_enabled) (enabled_among-unknown id r.by_id (listed capability r.by_capability) e)
  | inr (reg, e) ↦
      rw (e, set_enabled)
        (enabled_among-disabled id reg r.by_id (listed capability r.by_capability))
]
