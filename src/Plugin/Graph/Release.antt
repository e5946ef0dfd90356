-- ===== src/Plugin/Graph/Release.antt =====
-- The state of the loop over the queue of BuildDependencyGraph (internal/plugin/registry.go): what
-- holds of the queue, the degrees and the order before each round.
use accessgate.Base.{
  ◌+◌, ◌≤◌, ◌<◌, String, ◌≡◌, refl, List, [], ◌∷◌, ◌++◌, arith, if◌then◌else◌, eq_iff,
}
use accessgate.Base.Int.{ℤ, pos, ◌-ℤ◌}
use accessgate.Base.Dict.{Dict, lookup, insert}
use accessgate.Plugin.{listed, keys}
use accessgate.Plugin.Graph.{degree, release, is_zero}
use accessgate.Plugin.Graph.Counts.{count, count_snoc, degree-insert, IsKeyed, unmet}

unmet_untouched :
    (order : List String) (x p : String) (m : Dict (List String))
    → count p (keys m) ≡ 0
    → unmet (order ++ p ∷ []) x m ≡ unmet order x m
unfolding unmet keys count
unmet_untouched order x p [] h = refl
unmet_untouched order x p ((name, ids) ∷ more) h =
    ground
      (arith, unmet_untouched order x p more, count_snoc name p order, eq_iff name p, eq_iff p name)

-- Taking a plugin from the queue meets the edges from it.
pub unmet_snoc :
    (order : List String) (x p : String) (m : Dict (List String))
    → IsKeyed m
    → count p order ≡ 0
    → unmet (order ++ p ∷ []) x m + count x (listed p m) ≡ unmet order x m
unfolding unmet listed lookup keys count
unmet_snoc order x p [] k h = refl
unmet_snoc order x p ((name, ids) ∷ more) k h =
    let below : IsKeyed more = record { once = λ key. ground (arith, k.once key) } in
    ground (
      arith,
      unmet_snoc order x p more below,
      count_snoc name p order,
      eq_iff name p,
      eq_iff p name,
      k.once p,
      unmet_untouched order x p more,
    )

-- A plugin without unmet edges has all of its providers in the order.
pub met_provider :
    (order : List String) (x p : String) (m : Dict (List String))
    → unmet order x m ≡ 0
    → 0 < count x (listed p m)
    → 0 < count p order
unfolding unmet listed lookup count
met_provider order x p [] h e = absurd (omega arith)
met_provider order x p ((name, ids) ∷ more) h e =
    ground (arith, met_provider order x p more, eq_iff name p)

-- `ids` are the registered plugins, and `rest` those edges of the current round that the loop over
-- the dependents has not read.
module _ (ids : List String) (m : Dict (List String)) where
  pub record IsLoop (rest : List String) (d : Dict ℤ) (queue order : List String) : Type 0 where
    pub counted : (x : String) → degree x d ≡ pos (unmet order x m + count x rest)
    pub ready :
        (x : String) → 0 < count x queue + count x order → unmet order x m + count x rest ≡ 0
    pub full :
        (x : String)
        → 0 < count x ids
        → unmet order x m + count x rest ≡ 0
        → 0 < count x queue + count x order
    pub distinct : (x : String) → count x queue + count x order ≤ 1
    pub known : (x : String) → 0 < count x queue + count x order → 0 < count x ids
    pub pending : (x : String) → 0 < count x rest → 0 < count x ids

  -- The edges are between registered plugins, and each provider has one entry.
  pub record IsGraph : Type 0 where
    pub keyed : IsKeyed m
    pub inside : (x p : String) → 0 < count x (listed p m) → 0 < count x ids

  release_one :
      (id : String) (rest : List String) (d : Dict ℤ) (queue order : List String)
      → IsLoop (id ∷ rest) d queue order
      → IsLoop rest
          (insert id (degree id d -ℤ pos 1) d)
          (if is_zero (degree id (insert id (degree id d -ℤ pos 1) d))
            then queue ++ id ∷ []
            else queue)
          order
  unfolding count ◌-ℤ◌
  release_one id rest d queue order h =
      let n = degree id d -ℤ pos 1 in
      let before = degree-insert id id n d in
      record {
        counted =
            λ x. ground (arith, h.counted x, degree-insert id x n d, eq_iff id x, eq_iff x id);
        ready = λ x. ground (
          arith,
          h.counted id,
          h.ready x,
          before,
          eq_iff id id,
          eq_iff x id,
          count_snoc x id queue,
        );
        full = λ x. ground (
          arith,
          h.counted id,
          h.full x,
          before,
          eq_iff id id,
          eq_iff x id,
          count_snoc x id queue,
        );
        distinct = λ x. ground (
          arith,
          h.counted id,
          h.ready id,
          h.distinct x,
          before,
          eq_iff id id,
          eq_iff x id,
          count_snoc x id queue,
        );
        known = λ x. ground (
          arith,
          h.known x,
          h.pending x,
          before,
          eq_iff id id,
          eq_iff x id,
          count_snoc x id queue,
        );
        pending = λ x. ground (arith, h.pending x);
      }

  pub release-IsLoop :
      (edges : List String) (d : Dict ℤ) (queue order : List String)
      → IsLoop edges d queue order
      → IsLoop [] (release edges d queue).1 (release edges d queue).0 order
  unfolding release
  release-IsLoop [] d queue order h = h
  release-IsLoop (id ∷ rest) d queue order h =
      release-IsLoop rest _ _ order (release_one id rest d queue order h)

  pub pop-IsLoop :
      (id : String) (d : Dict ℤ) (queue order : List String)
      → IsGraph
      → IsLoop [] d (id ∷ queue) order
      → IsLoop (listed id m) d queue (order ++ id ∷ [])
  unfolding count
  pop-IsLoop id d queue order g h = record {
    counted = λ x.
        ground (arith, h.counted x, h.distinct id, eq_iff id id, unmet_snoc order x id m g.keyed);
    ready = λ x. ground (
      arith,
      h.ready x,
      h.distinct id,
      eq_iff id id,
      unmet_snoc order x id m g.keyed,
      count_snoc x id order,
    );
    full = λ x. ground (
      arith,
      h.full x,
      h.distinct id,
      eq_iff id id,
      unmet_snoc order x id m g.keyed,
      count_snoc x id order,
    );
    distinct = λ x. ground (arith, h.distinct x, count_snoc x id order);
    known = λ x. ground (arith, h.known x, count_snoc x id order);
    pending = λ x. g.inside x id;
  }
