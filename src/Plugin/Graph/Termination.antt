-- ===== src/Plugin/Graph/Termination.antt =====
-- The loop over the queue of BuildDependencyGraph ends within its fuel.
use accessgate.Base.{
  ℕ, zero, suc, ◌+◌, ◌≤◌, String, ◌≡◌, refl, some, List, [], ◌∷◌, ◌++◌, arith, length, ltb,
  if◌then◌else◌, eq_iff,
}
use accessgate.Base.Int.{ℤ, pos, pos_part, ◌-ℤ◌}
use accessgate.Base.Dict.{Dict, lookup, insert, lookup-insert}
use accessgate.Plugin.{listed}
use accessgate.Plugin.Graph.{is_zero, degree, initial_queue, release, kahn, sort}

is_positive : ℤ → ℕ
is_positive n = if ltb 0 (pos_part n) then 1 else 0

-- The number of plugins with a positive degree.
waiting : Dict ℤ → ℕ
unfolding is_positive
waiting [] = 0
waiting ((_, n) ∷ more) = is_positive n + waiting more

waiting-insert :
    (id : String) (n : ℤ) (d : Dict ℤ)
    → waiting (insert id n d) + is_positive (degree id d) ≡ waiting d + is_positive n
unfolding waiting insert degree lookup
waiting-insert id n [] = ground arith
waiting-insert id n ((name, old) ∷ more) = ground (arith, waiting-insert id n more, eq_iff name id)

length_snoc : {A : Type 0} (xs : List A) (x : A) → length (xs ++ x ∷ []) ≡ length xs + 1
length_snoc [] x = omega arith
length_snoc (y ∷ xs) x = omega (arith, length_snoc xs x)

degree_after : (id : String) (n : ℤ) (d : Dict ℤ) → degree id (insert id n d) ≡ n
unfolding degree
degree_after id n d = ground (arith, lookup-insert id id n d, eq_iff id id)

-- A decrement that makes a plugin ready ends its waiting.
falls : (n : ℤ) → is_positive (n -ℤ pos 1) + (if is_zero (n -ℤ pos 1) then 1 else 0) ≤ is_positive n
unfolding is_positive ◌-ℤ◌
falls n = ground arith

release_measure :
    (ids : List String) (d : Dict ℤ) (queue : List String)
    → waiting (release ids d queue).1 + length (release ids d queue).0 ≤ waiting d + length queue
unfolding release
release_measure [] d queue = omega arith
release_measure (id ∷ more) d queue =
    let n = degree id d -ℤ pos 1 in
    let d' = insert id n d in
    let step =
      release_measure more d' (if is_zero (degree id d') then queue ++ id ∷ [] else queue) in
    ground (
      arith,
      step,
      waiting-insert id n d,
      degree_after id n d,
      falls (degree id d),
      length_snoc queue id,
    )

kahn_total :
    (m : Dict (List String)) (fuel : ℕ) (queue : List String) (d : Dict ℤ) (order : List String)
    → waiting d + length queue ≤ fuel
    → (result : List String) × (kahn m fuel queue d order ≡ some result)
unfolding kahn
kahn_total m fuel [] d order h = (order, refl)
kahn_total m zero (id ∷ queue) d order h = absurd (omega arith)
kahn_total m (suc fuel) (id ∷ queue) d order h =
    let next = release (listed id m) d queue in
    kahn_total m fuel next.0 next.1 (order ++ id ∷ [])
      (omega (arith, release_measure (listed id m) d queue))

initial_measure : (d : Dict ℤ) → waiting d + length (initial_queue d) ≤ length d
unfolding waiting is_positive initial_queue
initial_measure [] = omega arith
initial_measure ((_, n) ∷ more) = ground (arith, initial_measure more)

-- The loop over the queue ends with an order, whatever the edges and the degrees are: the fuel, one
-- round for each plugin that has a degree, is never used up.
pub sort_total :
    (m : Dict (List String)) (d : Dict ℤ) → (order : List String) × (sort m d ≡ some order)
unfolding sort
sort_total m d = kahn_total m (length d) (initial_queue d) d [] (initial_measure d)
