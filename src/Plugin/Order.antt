-- ===== src/Plugin/Order.antt =====
-- What BuildDependencyGraph of internal/plugin/registry.go promises of the startup order.
use mathlib.Core.Path.{subst}
use accessgate.Base.{
  ℕ, zero, suc, ◌≤◌, ◌<◌, String, ◌≡◌, refl, Bool, true, some, List, [], ◌∷◌, ◌++◌, ◌&&◌, arith,
  ltb, eq_iff,
}
use accessgate.Base.Int.{ℤ}
use accessgate.Base.Dict.{Dict}
use accessgate.Plugin.{Registry, listed, keys}
use accessgate.Plugin.Graph.{kahn}
use accessgate.Plugin.Graph.Counts.{count, unmet}
use accessgate.Plugin.Graph.Edges.{provided}
use accessgate.Plugin.Graph.Release.{IsLoop, IsGraph, release-IsLoop, pop-IsLoop, met_provider}
use mathlib.Core.List.{append_assoc, append-nil}

unfoldable pub all_in : List String → List String → Bool
unfolding count
all_in [] seen = true
all_in (x ∷ xs) seen = ltb 0 (count x seen) && all_in xs seen

-- The plugins that provide what `id` depends on.
unfoldable pub providers_of : Registry → String → List String
unfolding provided listed
providers_of r id = provided r (listed id r.dependencies)

-- Each plugin stands behind all of its providers; `seen` are those before the list.
unfoldable pub starts_in_order : Registry → List String → List String → Bool
unfolding all_in providers_of
starts_in_order r seen [] = true
starts_in_order r seen (id ∷ more) =
    all_in (providers_of r id) seen && starts_in_order r (seen ++ id ∷ []) more

starts_snoc :
    (r : Registry) (seen order : List String) (id : String)
    → starts_in_order r seen order ≡ true
    → all_in (providers_of r id) (seen ++ order) ≡ true
    → starts_in_order r seen (order ++ id ∷ []) ≡ true
unfolding starts_in_order
starts_snoc r seen [] id h e = ground (arith, append-nil seen)
starts_snoc r seen (x ∷ order) id h e =
    ground (arith, starts_snoc r (seen ++ x ∷ []) order id, append_assoc seen (x ∷ []) order)

all_in_of :
    (xs seen : List String)
    → ((x : String) → 0 < count x xs → 0 < count x seen)
    → all_in xs seen ≡ true
unfolding all_in count
all_in_of [] seen h = refl
all_in_of (x ∷ xs) seen h =
    ground (arith, h x, eq_iff x x, all_in_of xs seen (λ y e. ground (arith, h y)))

-- The loop's graph holds every edge that the plugins' dependencies ask for.
module _ (r : Registry) (m : Dict (List String)) where
  pub record IsLinked : Type 0 where
    pub graph : IsGraph (keys r.by_id) m
    pub edges : (x p : String) → 0 < count p (providers_of r x) → 0 < count x (listed p m)

  pub record IsSorted (order : List String) : Type 0 where
    pub ordered : starts_in_order r [] order ≡ true
    pub distinct : (x : String) → count x order ≤ 1
    pub known : (x : String) → 0 < count x order → 0 < count x (keys r.by_id)
    pub full : (x : String) → 0 < count x (keys r.by_id) → unmet order x m ≡ 0 → 0 < count x order

  pop_ordered :
      (id : String) (d : Dict ℤ) (queue order : List String)
      → IsLinked
      → IsLoop (keys r.by_id) m [] d (id ∷ queue) order
      → starts_in_order r [] order ≡ true
      → starts_in_order r [] (order ++ id ∷ []) ≡ true
  unfolding count
  pop_ordered id d queue order l h e = starts_snoc r [] order id e (
      all_in_of (providers_of r id) order (λ p needed.
        met_provider order id p m (ground (arith, h.ready id, eq_iff id id)) (l.edges id p needed)))

  pub kahn-IsSorted :
      (fuel : ℕ) (queue : List String) (d : Dict ℤ) (order : List String) {result : List String}
      → IsLinked
      → IsLoop (keys r.by_id) m [] d queue order
      → starts_in_order r [] order ≡ true
      → kahn m fuel queue d order ≡ some result
      → IsSorted result
  unfolding kahn count
  kahn-IsSorted fuel [] d order l h e done = subst IsSorted (ground arith) (record {
    ordered = e;
    distinct = λ x. ground (arith, h.distinct x);
    known = λ x. ground (arith, h.known x);
    full = λ x. ground (arith, h.full x);
  })
  kahn-IsSorted zero (id ∷ queue) d order l h e done = absurd (ground arith)
  kahn-IsSorted (suc fuel) (id ∷ queue) d order l h e done =
      kahn-IsSorted fuel _ _ _ l
        (release-IsLoop (keys r.by_id) m _ d queue _
          (pop-IsLoop (keys r.by_id) m id d queue order l.graph h))
        (pop_ordered id d queue order l h e) done
