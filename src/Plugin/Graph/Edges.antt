-- ===== src/Plugin/Graph/Edges.antt =====
-- The graph that BuildDependencyGraph of internal/plugin/registry.go links: its edges are the pairs
-- of a provider and a plugin that needs it, and a plugin's degree counts the edges into it.
use accessgate.Base.{
  Bool-cases, Option-cases, inl, inr, ℕ, ◌+◌, String, ◌≡◌, refl, none, List, [], ◌∷◌, ◌++◌, arith,
  length, is_empty, eq_iff,
}
use accessgate.Base.Int.{ℤ, pos, ◌+ℤ◌}
use accessgate.Base.Dict.{Dict, lookup, insert}
use accessgate.Plugin.{Registry, Registration, listed}
use accessgate.Plugin.Graph.{
  link_providers, link_capabilities, link_all, degree, no_degrees, add_capabilities, add_all,
}
use accessgate.Plugin.Graph.Counts.{
  count, count-append, degree-insert, IsKeyed, unmet, at, unmet-link_providers,
  edges-link_providers, link_providers-IsKeyed,
}

length-append : {A : Type 0} (xs ys : List A) → length (xs ++ ys) ≡ length xs + length ys
length-append [] ys = omega arith
length-append (x ∷ xs) ys = omega (arith, length-append xs ys)

module _ (r : Registry) where
  -- The plugins that provide one of the capabilities.
  unfoldable pub provided : List String → List String
  provided [] = []
  provided (capability ∷ more) = listed capability r.by_capability ++ provided more

  unmet-link_capabilities :
      (x id : String) (capabilities : List String) (m : Dict (List String))
      → (link_capabilities r id capabilities m).0 ≡ none
      → unmet [] x (link_capabilities r id capabilities m).1
        ≡ unmet [] x m + at x id (length (provided capabilities))
  unfolding link_capabilities provided
  unmet-link_capabilities x id [] m h = ground arith
  unmet-link_capabilities x id (capability ∷ more) m h =
      let providers = listed capability r.by_capability in
      let m' = link_providers id providers m in
      ground (
        arith,
        unmet-link_capabilities x id more m',
        unmet-link_providers x id providers m,
        length-append providers (provided more),
      )

  edges-link_capabilities :
      (x p id : String) (capabilities : List String) (m : Dict (List String))
      → (link_capabilities r id capabilities m).0 ≡ none
      → count x (listed p (link_capabilities r id capabilities m).1)
        ≡ count x (listed p m) + at x id (count p (provided capabilities))
  unfolding link_capabilities provided count
  edges-link_capabilities x p id [] m h = ground arith
  edges-link_capabilities x p id (capability ∷ more) m h =
      let providers = listed capability r.by_capability in
      let m' = link_providers id providers m in
      ground (
        arith,
        edges-link_capabilities x p id more m',
        edges-link_providers x p id providers m,
        count-append p providers (provided more),
      )

  link_capabilities-IsKeyed :
      (id : String) (capabilities : List String) (m : Dict (List String))
      → IsKeyed m
      → IsKeyed (link_capabilities r id capabilities m).1
  unfolding link_capabilities
  link_capabilities-IsKeyed id [] m h = h
  link_capabilities-IsKeyed id (capability ∷ more) m h =
      let providers = listed capability r.by_capability in
      let rest = link_capabilities-IsKeyed id more _ (link_providers-IsKeyed id providers m h) in
      elim (Bool-cases (is_empty providers)) [ inl e ↦ rw e h | inr e ↦ rw e rest ]

  degree-add_capabilities :
      (x id : String) (capabilities : List String) (d : Dict ℤ) (n : ℕ)
      → degree x d ≡ pos n
      → degree x (add_capabilities r id capabilities d)
        ≡ pos (n + at x id (length (provided capabilities)))
  unfolding add_capabilities provided ◌+ℤ◌
  degree-add_capabilities x id [] d n h = ground arith
  degree-add_capabilities x id (capability ∷ more) d n h =
      let providers = listed capability r.by_capability in
      let d' = insert id (degree id d +ℤ pos (length providers)) d in
      ground (
        arith,
        degree-add_capabilities x id more d' (n + at x id (length providers)),
        degree-insert id x (degree id d +ℤ pos (length providers)) d,
        length-append providers (provided more),
        eq_iff id x,
        eq_iff x id,
      )

  -- The edges into `x`, and those from `p`, over all the dependencies.
  unfoldable pub demand : String → Dict (List String) → ℕ
  demand x [] = 0
  demand x ((id, capabilities) ∷ more) = at x id (length (provided capabilities)) + demand x more

  unfoldable pub wanted : String → String → Dict (List String) → ℕ
  wanted x p [] = 0
  wanted x p ((id, capabilities) ∷ more) =
      at x id (count p (provided capabilities)) + wanted x p more

  pub unmet-link_all :
      (x : String) (deps m : Dict (List String))
      → (link_all r deps m).0 ≡ none
      → unmet [] x (link_all r deps m).1 ≡ unmet [] x m + demand x deps
  unfolding link_all demand
  unmet-link_all x [] m h = ground arith
  unmet-link_all x ((id, capabilities) ∷ more) m h = ground (
    arith,
    unmet-link_all x more (link_capabilities r id capabilities m).1,
    unmet-link_capabilities x id capabilities m,
  )

  pub edges-link_all :
      (x p : String) (deps m : Dict (List String))
      → (link_all r deps m).0 ≡ none
      → count x (listed p (link_all r deps m).1) ≡ count x (listed p m) + wanted x p deps
  unfolding link_all wanted
  edges-link_all x p [] m h = ground arith
  edges-link_all x p ((id, capabilities) ∷ more) m h = ground (
    arith,
    edges-link_all x p more (link_capabilities r id capabilities m).1,
    edges-link_capabilities x p id capabilities m,
  )

  pub link_all-IsKeyed : (deps m : Dict (List String)) → IsKeyed m → IsKeyed (link_all r deps m).1
  unfolding link_all
  link_all-IsKeyed [] m h = h
  link_all-IsKeyed ((id, capabilities) ∷ more) m h =
      let first = link_capabilities-IsKeyed id capabilities m h in
      let rest = link_all-IsKeyed more _ first in
      elim (Option-cases (link_capabilities r id capabilities m).0) [
        | inl e ↦ rw (e, link_all) rest
        | inr (failure, e) ↦ rw (e, link_all) first
      ]

  pub degree-add_all :
      (x : String) (deps : Dict (List String)) (d : Dict ℤ) (n : ℕ)
      → degree x d ≡ pos n
      → degree x (add_all r deps d) ≡ pos (n + demand x deps)
  unfolding add_all demand
  degree-add_all x [] d n h = ground arith
  degree-add_all x ((id, capabilities) ∷ more) d n h = ground (
    arith,
    degree-add_all x more (add_capabilities r id capabilities d)
        (n + at x id (length (provided capabilities))),
    degree-add_capabilities x id capabilities d n,
  )

pub degree-no_degrees : (x : String) (m : Dict Registration) → degree x (no_degrees m) ≡ pos 0
unfolding degree no_degrees lookup
degree-no_degrees x [] = refl
degree-no_degrees x ((id, reg) ∷ more) = ground (arith, degree-no_degrees x more)
