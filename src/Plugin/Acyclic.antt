-- ===== src/Plugin/Acyclic.antt =====
-- Plugins whose dependencies have no cycle: BuildDependencyGraph of internal/plugin/registry.go
-- never refuses them.
use accessgate.Base.{
  ℕ, zero, suc, ◌+◌, ◌<◌, String, ◌≡◌, ◌≢◌, Option, none, some, List, [], ◌∷◌, arith, length, eqb,
  eq_iff, Option-cases, Bool-cases, inl, inr, sym, ◌∙◌,
}
use accessgate.Base.Dict.{Dict, lookup}
use accessgate.Plugin.{Registry, dependency_cycle, listed, keys, Call, set_up, empty_registry}
use accessgate.Plugin.Graph.{
  sort, in_degrees, link_all, link_providers, link_capabilities, finish, build_dependency_graph,
}
use accessgate.Plugin.Graph.Counts.{count, count-append, IsKeyed, unmet}
use accessgate.Plugin.Graph.Edges.{provided}
use accessgate.Plugin.Graph.Pigeonhole.{length-le}
use accessgate.Plugin.Graph.Termination.{sort_total}
use accessgate.Plugin.Order.{providers_of, IsSorted}
use accessgate.Plugin.Valid.{IsValid, set_up-IsValid, set_up-dependents}
use accessgate.Plugin.Built.{
  graph_of, edges_of, graph_of-IsGraph, sort-IsSorted, sorted_below, length-keys,
  in_degrees-dependents,
}

-- A provider that the order does not hold, and an edge from it.
record Missing (order : List String) (x : String) (m : Dict (List String)) (p : String)
    : Type 0 where
  absent : count p order ≡ 0
  edge : 0 < count x (listed p m)
  key : 0 < count p (keys m)

Missing-there :
    (order : List String) (x name p : String) (ids : List String) (more : Dict (List String))
    → IsKeyed ((name, ids) ∷ more)
    → Missing order x more p
    → Missing order x ((name, ids) ∷ more) p
unfolding listed lookup keys count
Missing-there order x name p ids more k h =
    ground (arith, k.once name, eq_iff name p, eq_iff p name, eq_iff name name)

Missing-here :
    (order : List String) (x name : String) (ids : List String) (more : Dict (List String))
    → count name order ≡ 0
    → 0 < count x ids
    → Missing order x ((name, ids) ∷ more) name
unfolding listed lookup keys count
Missing-here order x name ids more e f = ground (arith, eq_iff name name)

Missing-provider :
    (order : List String) (x : String) (m : Dict (List String))
    → IsKeyed m
    → 0 < unmet order x m
    → (p : String) × Missing order x m p
unfolding unmet keys count
Missing-provider order x [] k h = absurd (omega arith)
Missing-provider order x ((name, ids) ∷ more) k h =
    let below : IsKeyed more = record { once = λ key. ground (arith, k.once key) } in
    elim (Bool-cases (eqb (count name order) 0)) [
      | inl e ↦ elim (Bool-cases (eqb (count x ids) 0)) [
        | inl f ↦
            let (p, found) = Missing-provider order x more below (ground arith) in
            (p, Missing-there order x name p ids more k found)
        | inr f ↦ (name, Missing-here order x name ids more (ground arith) (ground arith))
      ]
      | inr e ↦
          let (p, found) = Missing-provider order x more below (ground arith) in
          (p, Missing-there order x name p ids more k found)
    ]

provided_registered :
    (r : Registry) (p : String) (capabilities : List String)
    → IsValid r
    → 0 < count p (provided r capabilities)
    → 0 < count p (keys r.by_id)
unfolding provided count
provided_registered r p [] v h = absurd (omega arith)
provided_registered r p (capability ∷ more) v h = ground (
  arith,
  provided_registered r p more v,
  v.provider capability p,
  count-append p (listed capability r.by_capability) (provided r more),
)

-- A ranking of the plugins: a provider ranks below the plugins that depend on it.
pub record IsRanked (r : Registry) (rank : String → ℕ) : Type 0 where
  pub below : (id p : String) → 0 < count p (providers_of r id) → rank p < rank id

module _ (r : Registry) (v : IsValid r) (unlinked : r.dependents ≡ [])
    (linked : (link_all r r.dependencies r.dependents).0 ≡ none) (order : List String)
    (s : IsSorted r (graph_of r) order) (rank : String → ℕ) (ranked : IsRanked r rank) where
  provider_registered :
      (id p : String) → 0 < count p (providers_of r id) → 0 < count p (keys r.by_id)
  unfolding providers_of
  provider_registered id p h = provided_registered r p (listed id r.dependencies) v h

  -- By induction on the rank, every registered plugin is in the order.
  ranked_started :
      (n : ℕ) (id : String) → rank id < n → 0 < count id (keys r.by_id) → 0 < count id order
  ranked_started zero id h e = absurd (omega arith)
  ranked_started (suc n) id h e = elim (Bool-cases (eqb (unmet order id (graph_of r)) 0)) [
    | inl met ↦ s.full id e (ground arith)
    | inr waiting ↦
        let (p, missing) =
          Missing-provider order id (graph_of r) (graph_of-IsGraph r v unlinked linked).keyed
            (ground arith) in
        let needed : 0 < count p (providers_of r id) =
          omega (arith, edges_of r v unlinked linked id p, missing.edge) in
        let started =
          ranked_started n p (omega (arith, ranked.below id p needed))
            (provider_registered id p needed) in
        absurd (omega (arith, started, missing.absent))
  ]

  started_length : length order ≡ length r.by_id
  started_length = omega (
    arith,
    length-keys r.by_id,
    length-le order (keys r.by_id) (sorted_below r (graph_of r) order s),
    length-le (keys r.by_id) order
        (λ id. ground (arith, v.ids.once id, ranked_started (rank id + 1) id (omega arith))),
  )

finished_ranked :
    (r' : Registry) (sorted : Option (List String))
    → ((order : List String) → sorted ≡ some order → length order ≡ length r'.by_id)
    → (order : List String) × (sorted ≡ some order)
    → (finish r' sorted).0 ≡ none
unfolding finish
finished_ranked r' sorted same (order, e) = rw e (ground (arith, same order e))

ranked-build :
    (r : Registry) (rank : String → ℕ)
    → IsValid r
    → r.dependents ≡ []
    → IsRanked r rank
    → (build_dependency_graph r).0 ≡ (link_all r r.dependencies r.dependents).0
unfolding build_dependency_graph finish
ranked-build r rank v unlinked ranked =
    elim (Option-cases (link_all r r.dependencies r.dependents).0) [
      | inl e ↦
          let m = graph_of r in
          let r' : Registry = record r { dependents = m } in
          rw (e, build_dependency_graph)
            (finished_ranked r' (sort m (in_degrees r'))
              (λ order f.
                started_length r v unlinked e order
                  (sort-IsSorted r v unlinked e order (rw (in_degrees-dependents r m) at f)) rank
                  ranked)
              (sort_total m (in_degrees r')))
      | inr (failure, e) ↦ rw (e, build_dependency_graph)
    ]

link_capabilities-cycle :
    (r : Registry) (id : String) (capabilities : List String) (m : Dict (List String))
    → (link_capabilities r id capabilities m).0 ≢ some dependency_cycle
unfolding link_capabilities
link_capabilities-cycle r id [] m h = ground arith
link_capabilities-cycle r id (capability ∷ more) m h =
    let m' = link_providers id (listed capability r.by_capability) m in
    ground (arith, link_capabilities-cycle r id more m')

link_all-cycle :
    (r : Registry) (deps m : Dict (List String)) → (link_all r deps m).0 ≢ some dependency_cycle
unfolding link_all
link_all-cycle r [] m h = ground arith
link_all-cycle r ((id, capabilities) ∷ more) m h = ground (
  arith,
  link_all-cycle r more (link_capabilities r id capabilities m).1,
  link_capabilities-cycle r id capabilities m,
)

-- If the plugins can be ranked so that every provider ranks below the plugins that depend on it,
-- then BuildDependencyGraph, called once after any calls of Register, Enable and Disable on a new
-- registry, reports no dependency cycle.
pub build-acyclic :
    (calls : List Call) (rank : String → ℕ)
    → IsRanked (set_up calls empty_registry) rank
    → (build_dependency_graph (set_up calls empty_registry)).0 ≢ some dependency_cycle
build-acyclic calls rank ranked h =
    let r = set_up calls empty_registry in
    link_all-cycle r r.dependencies r.dependents (
      sym
        (ranked-build r rank (set_up-IsValid calls) (set_up-dependents calls empty_registry) ranked)
      ∙ h)
