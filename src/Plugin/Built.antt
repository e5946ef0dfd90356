-- ===== src/Plugin/Built.antt =====
-- What a call of BuildDependencyGraph (internal/plugin/registry.go) leaves in the registry.
use accessgate.Base.{
  ◌≤◌, String, ◌≡◌, refl, true, Option, none, some, List, [], ◌∷◌, arith, length, eqb,
  if◌then◌else◌, Option-cases, Bool-cases, inl, inr, ◌≢◌, sym, ◌∙◌,
}
use accessgate.Base.Int.{pos}
use accessgate.Base.Dict.{Dict, lookup}
use accessgate.Plugin.{Registry, listed, keys, Call, set_up, empty_registry, startup_order}
use accessgate.Plugin.Graph.{
  degree, is_zero, initial_queue, sort, in_degrees, add_all, add_capabilities, no_degrees, link_all,
  finish, build_dependency_graph,
}
use accessgate.Plugin.Graph.Counts.{count, IsKeyed, unmet}
use accessgate.Plugin.Graph.Edges.{
  unmet-link_all, edges-link_all, link_all-IsKeyed, degree-add_all, degree-no_degrees,
}
use accessgate.Plugin.Graph.Pigeonhole.{count-eq}
use accessgate.Plugin.Graph.Initial.{
  count-initial_queue, keys-in_degrees, wanted_key, wanted-listed,
}
use accessgate.Plugin.Graph.Release.{IsLoop, IsGraph}
use accessgate.Plugin.Order.{starts_in_order, providers_of, IsLinked, IsSorted, kahn-IsSorted}
use accessgate.Plugin.Valid.{IsValid, set_up-IsValid, set_up-dependents}

-- The graph that a first call links.
abbrev pub graph_of : Registry → Dict (List String)
graph_of r = (link_all r r.dependencies r.dependents).1

module _ (r : Registry) (v : IsValid r) (unlinked : r.dependents ≡ [])
    (linked : (link_all r r.dependencies r.dependents).0 ≡ none) where
  unlinked-listed : (x p : String) → count x (listed p r.dependents) ≡ 0
  unfolding listed lookup count
  unlinked-listed x p = rw unlinked

  unlinked-unmet : (x : String) → unmet [] x r.dependents ≡ 0
  unfolding unmet
  unlinked-unmet x = rw unlinked

  unlinked-IsKeyed : IsKeyed r.dependents
  unfolding keys count
  unlinked-IsKeyed = rw unlinked (record { once = λ key. omega arith })

  pub edges_of : (x p : String) → count x (listed p (graph_of r)) ≡ count p (providers_of r x)
  unfolding providers_of
  edges_of x p = omega (
    arith,
    edges-link_all r x p r.dependencies r.dependents linked,
    wanted-listed r x p r.dependencies v.dependencies,
    unlinked-listed x p,
  )

  pub graph_of-IsGraph : IsGraph (keys r.by_id) (graph_of r)
  graph_of-IsGraph = record {
    keyed = link_all-IsKeyed r r.dependencies r.dependents unlinked-IsKeyed;
    inside = λ x p h. v.dependent x (
        wanted_key r x p r.dependencies (
          omega
            (arith, edges-link_all r x p r.dependencies r.dependents linked, unlinked-listed x p)));
  }

  graph_of-IsLinked : IsLinked r (graph_of r)
  graph_of-IsLinked = record {
    graph = graph_of-IsGraph;
    edges = λ x p h. omega (arith, edges_of x p);
  }

  in_degree : (x : String) → degree x (in_degrees r) ≡ pos (unmet [] x (graph_of r))
  unfolding in_degrees
  in_degree x = ground (
    arith,
    degree-add_all r x r.dependencies (no_degrees r.by_id) 0 (degree-no_degrees x r.by_id),
    unmet-link_all r x r.dependencies r.dependents linked,
    unlinked-unmet x,
  )

  in_degrees-IsKeyed : IsKeyed (in_degrees r)
  in_degrees-IsKeyed = record {
    once = λ key. omega (arith, keys-in_degrees r key v.dependent, v.ids.once key);
  }

  initial-count :
      (x : String)
      → count x (initial_queue (in_degrees r))
        ≡ (if is_zero (degree x (in_degrees r)) then count x (keys r.by_id) else 0)
  initial-count x = ground (
    arith,
    count-initial_queue x (in_degrees r) in_degrees-IsKeyed,
    keys-in_degrees r x v.dependent,
  )

  initial-IsLoop :
      IsLoop (keys r.by_id) (graph_of r) [] (in_degrees r) (initial_queue (in_degrees r)) []
  unfolding count
  initial-IsLoop = record {
    counted = λ x. ground (arith, in_degree x);
    ready = λ x. ground (arith, in_degree x, initial-count x);
    full = λ x. ground (arith, in_degree x, initial-count x);
    distinct = λ x. ground (arith, v.ids.once x, initial-count x);
    known = λ x. ground (arith, initial-count x);
    pending = λ x. ground arith;
  }

  pub sort-IsSorted :
      (order : List String)
      → sort (graph_of r) (in_degrees r) ≡ some order
      → IsSorted r (graph_of r) order
  unfolding sort starts_in_order
  sort-IsSorted order e =
      kahn-IsSorted r (graph_of r) (length (in_degrees r)) (initial_queue (in_degrees r))
        (in_degrees r) [] graph_of-IsLinked initial-IsLoop refl e

pub length-keys {ℓ} : {V : Type ℓ} (m : Dict V) → length (keys m) ≡ length m
unfolding keys
length-keys [] = refl
length-keys ((key, value) ∷ more) = omega (arith, length-keys more)

-- A startup order: every registered plugin once, each behind the plugins that provide what it
-- depends on.
pub record IsStartup (r : Registry) (order : List String) : Type 0 where
  pub ordered : starts_in_order r [] order ≡ true
  pub complete : (id : String) → count id order ≡ count id (keys r.by_id)

pub sorted_below :
    (r : Registry) (m : Dict (List String)) (order : List String)
    → IsSorted r m order
    → (x : String) → count x order ≤ count x (keys r.by_id)
sorted_below r m order s x = ground (arith, s.distinct x, s.known x)

sorted-IsStartup :
    (r : Registry) (m : Dict (List String)) (order : List String)
    → IsSorted r m order
    → length order ≡ length r.by_id
    → IsStartup r order
sorted-IsStartup r m order s e = record {
  ordered = s.ordered;
  complete =
      count-eq order (keys r.by_id) (sorted_below r m order s) (e ∙ sym (length-keys r.by_id));
}

-- The degrees do not depend on the edges.
pub in_degrees-dependents :
    (r : Registry) (m : Dict (List String))
    → in_degrees (record r { dependents = m }) ≡ in_degrees r
unfolding in_degrees add_all add_capabilities
in_degrees-dependents r m = refl

finished-IsStartup :
    (r r' : Registry) (m : Dict (List String)) (sorted : Option (List String))
    → ((order : List String) → sorted ≡ some order → IsSorted r m order)
    → length r'.by_id ≡ length r.by_id
    → (finish r' sorted).0 ≡ none
    → IsStartup r ((finish r' sorted).1).sorted_startup
unfolding finish
finished-IsStartup r r' m none s same done = absurd (ground arith)
finished-IsStartup r r' m (some order) s same done =
    elim (Bool-cases (eqb (length order) (length r'.by_id))) [
      | inl e ↦ rw e (sorted-IsStartup r m order (s order refl) (ground arith))
      | inr e ↦ absurd (ground arith)
    ]

built-IsStartup :
    (r : Registry)
    → IsValid r
    → r.dependents ≡ []
    → (build_dependency_graph r).0 ≡ none
    → IsStartup r (startup_order (build_dependency_graph r).1)
unfolding build_dependency_graph startup_order
built-IsStartup r v unlinked done = elim (Option-cases (link_all r r.dependencies r.dependents).0) [
  | inl e ↦
      let m = graph_of r in
      let r' : Registry = record r { dependents = m } in
      let done' = rw (e, build_dependency_graph) at done in
      rw (e, build_dependency_graph)
        (finished-IsStartup r r' m (sort m (in_degrees r'))
          (λ order f. sort-IsSorted r v unlinked e order (rw (in_degrees-dependents r m) at f)) refl
          done')
  | inr (failure, e) ↦ absurd (ground arith)
]

-- If BuildDependencyGraph, called once after any calls of Register, Enable and Disable on a new
-- registry, reports no error, then the startup order holds every registered plugin exactly once,
-- and each stands behind all plugins that provide a capability it depends on.
pub build-IsStartup :
    (calls : List Call)
    → (build_dependency_graph (set_up calls empty_registry)).0 ≡ none
    → IsStartup
        (set_up calls empty_registry)
        (startup_order (build_dependency_graph (set_up calls empty_registry)).1)
build-IsStartup calls done =
    built-IsStartup (set_up calls empty_registry) (set_up-IsValid calls)
      (set_up-dependents calls empty_registry) done

-- A call of BuildDependencyGraph that reports an error leaves the startup order as it was.
pub build-failed :
    (r : Registry)
    → (build_dependency_graph r).0 ≢ none
    → startup_order (build_dependency_graph r).1 ≡ startup_order r
unfolding build_dependency_graph startup_order finish
build-failed r failed = ground arith
