-- ===== src/Plugin/Graph/Initial.antt =====
-- The degrees and the queue with which BuildDependencyGraph of internal/plugin/registry.go enters
-- its loop.
use accessgate.Base.{◌<◌, String, ◌≡◌, refl, List, [], ◌∷◌, arith, length, if◌then◌else◌, eq_iff}
use accessgate.Base.Int.{ℤ, pos, ◌+ℤ◌}
use accessgate.Base.Dict.{Dict, lookup, insert}
use accessgate.Plugin.{Registry, Registration, listed, keys}
use accessgate.Plugin.Graph.{
  degree, is_zero, initial_queue, in_degrees, no_degrees, add_capabilities, add_all,
}
use accessgate.Plugin.Graph.Counts.{count, IsKeyed, keys-insert}
use accessgate.Plugin.Graph.Edges.{provided, wanted}

pub count-initial_queue :
    (x : String) (d : Dict ℤ)
    → IsKeyed d
    → count x (initial_queue d) ≡ (if is_zero (degree x d) then count x (keys d) else 0)
unfolding count keys initial_queue degree lookup
count-initial_queue x [] k = ground arith
count-initial_queue x ((name, n) ∷ more) k =
    let below : IsKeyed more = record { once = λ key. ground (arith, k.once key) } in
    ground (
      arith,
      count-initial_queue x more below,
      k.once name,
      eq_iff x name,
      eq_iff name x,
      eq_iff name name,
    )

keys-no_degrees :
    (x : String) (m : Dict Registration) → count x (keys (no_degrees m)) ≡ count x (keys m)
unfolding count keys no_degrees
keys-no_degrees x [] = refl
keys-no_degrees x ((id, reg) ∷ more) = ground (arith, keys-no_degrees x more)

module _ (r : Registry) where
  keys-add_capabilities :
      (x id : String) (capabilities : List String) (d : Dict ℤ)
      → 0 < count id (keys d)
      → count x (keys (add_capabilities r id capabilities d)) ≡ count x (keys d)
  unfolding add_capabilities
  keys-add_capabilities x id [] d h = refl
  keys-add_capabilities x id (capability ∷ more) d h =
      let n = degree id d +ℤ pos (length (listed capability r.by_capability)) in
      ground (
        arith,
        keys-add_capabilities x id more (insert id n d),
        keys-insert id x n d,
        keys-insert id id n d,
        eq_iff id id,
        eq_iff x id,
      )

  keys-add_all :
      (x : String) (deps : Dict (List String)) (d : Dict ℤ)
      → ((id : String) → 0 < count id (keys deps) → 0 < count id (keys d))
      → count x (keys (add_all r deps d)) ≡ count x (keys d)
  unfolding add_all keys count
  keys-add_all x [] d h = refl
  keys-add_all x ((id, capabilities) ∷ more) d h =
      let first : 0 < count id (keys d) = ground (arith, h id, eq_iff id id) in
      ground (
        arith,
        keys-add_all x more (add_capabilities r id capabilities d)
            (λ y e. ground (arith, h y, keys-add_capabilities y id capabilities d)),
        keys-add_capabilities x id capabilities d,
      )

  pub keys-in_degrees :
      (x : String)
      → ((id : String) → 0 < count id (keys r.dependencies) → 0 < count id (keys r.by_id))
      → count x (keys (in_degrees r)) ≡ count x (keys r.by_id)
  unfolding in_degrees
  keys-in_degrees x h = ground (
    arith,
    keys-add_all x r.dependencies (no_degrees r.by_id)
        (λ id e. ground (arith, h id, keys-no_degrees id r.by_id)),
    keys-no_degrees x r.by_id,
  )

  pub wanted_key :
      (x p : String) (deps : Dict (List String)) → 0 < wanted r x p deps → 0 < count x (keys deps)
  unfolding wanted keys count
  wanted_key x p [] h = absurd (omega arith)
  wanted_key x p ((id, capabilities) ∷ more) h = ground (arith, wanted_key x p more)

  wanted_absent :
      (x p : String) (deps : Dict (List String)) → count x (keys deps) ≡ 0 → wanted r x p deps ≡ 0
  unfolding wanted keys count
  wanted_absent x p [] h = refl
  wanted_absent x p ((id, capabilities) ∷ more) h = ground (arith, wanted_absent x p more)

  pub wanted-listed :
      (x p : String) (deps : Dict (List String))
      → IsKeyed deps
      → wanted r x p deps ≡ count p (provided r (listed x deps))
  unfolding wanted listed lookup keys count provided
  wanted-listed x p [] k = refl
  wanted-listed x p ((id, capabilities) ∷ more) k =
      let below : IsKeyed more = record { once = λ key. ground (arith, k.once key) } in
      ground (
        arith,
        wanted-listed x p more below,
        wanted_absent x p more,
        k.once id,
        eq_iff id x,
        eq_iff x id,
        eq_iff id id,
      )
