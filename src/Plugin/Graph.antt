-- ===== src/Plugin/Graph.antt =====
-- BuildDependencyGraph of internal/plugin/registry.go: the edges from providers to the plugins that
-- need them, and Kahn's algorithm over the in-degrees.
pub mod Counts
pub mod Edges
pub mod Initial
pub mod Pigeonhole
pub mod Release
pub mod Termination
use accessgate.Base.{
  ℕ, zero, suc, String, Bool, true, false, ◌&&◌, Option, none, some, List, [], ◌∷◌, ◌++◌, length,
  is_empty, eqb, if◌then◌else◌,
}
use accessgate.Base.Int.{ℤ, pos, negsuc, ◌+ℤ◌, ◌-ℤ◌}
use accessgate.Base.Dict.{Dict, lookup, insert}
use accessgate.Plugin.{
  Registry, Registration, Failure, no_providers, dependency_cycle, listed, append_to,
}

-- for _, reg := range deps { r.dependents[reg.ID] = append(r.dependents[reg.ID], id) }
unfoldable pub link_providers : String → List String → Dict (List String) → Dict (List String)
link_providers id [] m = m
link_providers id (provider ∷ more) m = link_providers id more (append_to provider id m)

-- The loop over one plugin's capabilities. An error leaves the edges that are linked by then.
unfoldable pub link_capabilities :
    Registry → String → List String → Dict (List String) → Option Failure × Dict (List String)
unfolding link_providers
link_capabilities r id [] m = (none, m)
link_capabilities r id (capability ∷ more) m =
    let providers = listed capability r.by_capability in
    let rest = link_capabilities r id more (link_providers id providers m) in
    if is_empty providers then (some (no_providers id capability), m) else rest

unfoldable pub link_all :
    Registry → Dict (List String) → Dict (List String) → Option Failure × Dict (List String)
unfolding link_capabilities
link_all r [] m = (none, m)
link_all r ((id, capabilities) ∷ more) m =
    let linked = link_capabilities r id capabilities m in
    let rest = link_all r more linked.1 in
    elim linked.0 [ some failure ↦ (some failure, linked.1) | none ↦ rest ]

-- inDegree[id], 0 where the key is missing.
unfoldable pub degree : String → Dict ℤ → ℤ
degree id d = elim (lookup id d) [ none ↦ pos 0 | some n ↦ n ]

unfoldable pub no_degrees : Dict Registration → Dict ℤ
no_degrees [] = []
no_degrees ((id, _) ∷ more) = (id, pos 0) ∷ no_degrees more

unfoldable pub add_capabilities : Registry → String → List String → Dict ℤ → Dict ℤ
add_capabilities r id [] d = d
add_capabilities r id (capability ∷ more) d =
    add_capabilities r id more
      (insert id (degree id d +ℤ pos (length (listed capability r.by_capability))) d)

unfoldable pub add_all : Registry → Dict (List String) → Dict ℤ → Dict ℤ
unfolding add_capabilities
add_all r [] d = d
add_all r ((id, capabilities) ∷ more) d = add_all r more (add_capabilities r id capabilities d)

unfoldable pub in_degrees : Registry → Dict ℤ
unfolding add_all no_degrees
in_degrees r = add_all r r.dependencies (no_degrees r.by_id)

abbrev pub is_zero : ℤ → Bool
is_zero (pos n) = eqb n 0
is_zero (negsuc n) = false

unfoldable pub initial_queue : Dict ℤ → List String
initial_queue [] = []
initial_queue ((id, n) ∷ more) =
    let rest = initial_queue more in if is_zero n then id ∷ rest else rest

-- The loop over the dependents of a plugin that is taken from the queue.
unfoldable pub release : List String → Dict ℤ → List String → List String × Dict ℤ
release [] d queue = (queue, d)
release (id ∷ more) d queue =
    let d' = insert id (degree id d -ℤ pos 1) d in
    release more d' (if is_zero (degree id d') then queue ++ id ∷ [] else queue)

-- The loop over the queue; `none` means that the fuel ran out.
unfoldable pub kahn :
    Dict (List String) → ℕ → List String → Dict ℤ → List String → Option (List String)
unfolding release
kahn m fuel [] d order = some order
kahn m zero (id ∷ queue) d order = none
kahn m (suc fuel) (id ∷ queue) d order =
    let next = release (listed id m) d queue in kahn m fuel next.0 next.1 (order ++ id ∷ [])

-- Every plugin enters the queue once at most, so one round for each degree is enough fuel.
unfoldable pub sort : Dict (List String) → Dict ℤ → Option (List String)
unfolding kahn initial_queue
sort m d = kahn m (length d) (initial_queue d) d []

-- `none` does not arise: see Graph/Termination.
unfoldable pub finish : Registry → Option (List String) → Option Failure × Registry
finish r none = (some dependency_cycle, r)
finish r (some order) =
    if eqb (length order) (length r.by_id)
    then (none, record r { sorted_startup = order })
    else (some dependency_cycle, r)

unfoldable pub build_dependency_graph : Registry → Option Failure × Registry
unfolding link_all in_degrees sort finish
build_dependency_graph r =
    let linked = link_all r r.dependencies r.dependents in
    let r' = record r { dependents = linked.1 } in
    elim linked.0 [
      | some failure ↦ (some failure, r')
      | none ↦ finish r' (sort linked.1 (in_degrees r'))
    ]
