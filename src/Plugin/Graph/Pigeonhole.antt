-- ===== src/Plugin/Graph/Pigeonhole.antt =====
-- Lists of ids compared by their counts, for the last test of BuildDependencyGraph
-- (internal/plugin/registry.go), which compares lengths alone.
use accessgate.Base.{
  ◌+◌, ◌≤◌, ◌<◌, String, ◌≡◌, refl, List, [], ◌∷◌, arith, length, if◌then◌else◌, eq_iff, ◌==◌,
}
use accessgate.Plugin.Graph.Counts.{count}

remove : String → List String → List String
remove x [] = []
remove x (y ∷ ys) = let rest = remove x ys in if x == y then ys else y ∷ rest

count-remove :
    (x y : String) (ys : List String)
    → 0 < count y ys
    → count x (remove y ys) + (if x == y then 1 else 0) ≡ count x ys
unfolding count remove
count-remove x y [] h = absurd (omega arith)
count-remove x y (z ∷ ys) h =
    ground (arith, count-remove x y ys, eq_iff x y, eq_iff y z, eq_iff x z)

length-remove :
    (y : String) (ys : List String) → 0 < count y ys → length (remove y ys) + 1 ≡ length ys
unfolding count remove
length-remove y [] h = absurd (omega arith)
length-remove y (z ∷ ys) h = ground (arith, length-remove y ys)

tail_below :
    (a x : String) (xs ys : List String)
    → count x (a ∷ xs) ≤ count x ys
    → count a (a ∷ xs) ≤ count a ys
    → count x xs ≤ count x (remove a ys)
unfolding count
tail_below a x xs ys h e = ground (arith, count-remove x a ys, eq_iff a a)

-- Fewer of each id is fewer in all.
pub length-le :
    (xs ys : List String) → ((x : String) → count x xs ≤ count x ys) → length xs ≤ length ys
unfolding count
length-le [] ys h = omega arith
length-le (a ∷ xs) ys h = ground (
  arith,
  length-le xs (remove a ys) (λ x. tail_below a x xs ys (h x) (h a)),
  h a,
  eq_iff a a,
  length-remove a ys,
)

-- And as many in all is as many of each.
pub count-eq :
    (xs ys : List String)
    → ((x : String) → count x xs ≤ count x ys)
    → length xs ≡ length ys
    → (x : String) → count x xs ≡ count x ys
unfolding count
count-eq [] [] h e x = refl
count-eq [] (y ∷ ys) h e x = absurd (omega arith)
count-eq (a ∷ xs) ys h e x =
    let shorter : length xs ≡ length (remove a ys) =
      ground (arith, h a, eq_iff a a, length-remove a ys) in
    ground (
      arith,
      count-eq xs (remove a ys) (λ z. tail_below a z xs ys (h z) (h a)) shorter x,
      h a,
      eq_iff a a,
      count-remove x a ys,
    )
