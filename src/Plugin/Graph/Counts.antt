-- ===== src/Plugin/Graph/Counts.antt =====
-- Counting ids in lists, and the edges between plugins: what linking the providers and adding the
-- degrees of internal/plugin/registry.go do to the counts.
use accessgate.Base.{
  ℕ, ◌+◌, ◌≤◌, String, ◌≡◌, List, [], ◌∷◌, ◌++◌, arith, length, eqb, if◌then◌else◌, eq_iff, ◌==◌,
}
use accessgate.Base.Int.{ℤ}
use accessgate.Base.Dict.{Dict, lookup, insert, lookup-insert}
use accessgate.Plugin.{listed, append_to, keys}
use accessgate.Plugin.Graph.{link_providers, degree}

unfoldable pub count : String → List String → ℕ
count x [] = 0
count x (y ∷ ys) = if x == y then 1 + count x ys else count x ys

pub count-append : (x : String) (xs ys : List String) → count x (xs ++ ys) ≡ count x xs + count x ys
unfolding count
count-append x [] ys = omega arith
count-append x (y ∷ xs) ys = ground (arith, count-append x xs ys)

pub count_snoc :
    (x y : String) (xs : List String)
    → count x (xs ++ y ∷ []) ≡ count x xs + (if x == y then 1 else 0)
unfolding count
count_snoc x y xs = ground (arith, count-append x xs (y ∷ []))

pub listed-append_to :
    (key asked : String) (id : String) (m : Dict (List String))
    → listed asked (append_to key id m)
      ≡ (if key == asked then listed key m ++ id ∷ [] else listed asked m)
unfolding listed append_to
listed-append_to key asked id m =
    ground (arith, lookup-insert key asked (listed key m ++ id ∷ []) m)

pub degree-insert :
    (id asked : String) (n : ℤ) (d : Dict ℤ)
    → degree asked (insert id n d) ≡ (if id == asked then n else degree asked d)
unfolding degree
degree-insert id asked n d = ground (arith, lookup-insert id asked n d)

-- No key stands twice.
pub record IsKeyed {ℓ} {V : Type ℓ} (m : Dict V) : Type ℓ where
  pub once : (key : String) → count key (keys m) ≤ 1

pub keys-insert {ℓ} :
    {V : Type ℓ} (key asked : String) (value : V) (m : Dict V)
    → count asked (keys (insert key value m)) ≡ (
        if asked == key
        then if eqb (count asked (keys m)) 0 then 1 else count asked (keys m)
        else count asked (keys m))
unfolding count keys insert
keys-insert key asked value [] = ground arith
keys-insert key asked value ((name, old) ∷ more) =
    ground (
      arith,
      keys-insert key asked value more,
      eq_iff asked name,
      eq_iff asked key,
      eq_iff name key,
    )

pub insert-IsKeyed {ℓ} :
    {V : Type ℓ} (key : String) (value : V) (m : Dict V) → IsKeyed m → IsKeyed (insert key value m)
insert-IsKeyed key value m h = record {
  once = λ asked. ground (arith, keys-insert key asked value m, h.once asked);
}

-- The edges into `x` from the plugins that `order` does not hold.
unfoldable pub unmet : List String → String → Dict (List String) → ℕ
unfolding count
unmet order x [] = 0
unmet order x ((provider, ids) ∷ more) =
    (if eqb (count provider order) 0 then count x ids else 0) + unmet order x more

unmet-insert :
    (x provider : String) (ids : List String) (m : Dict (List String))
    → unmet [] x (insert provider ids m) + count x (listed provider m) ≡ unmet [] x m + count x ids
unfolding unmet insert listed lookup
unmet-insert x provider ids [] = ground arith
unmet-insert x provider ids ((name, old) ∷ more) =
    ground (arith, unmet-insert x provider ids more, eq_iff name provider)

unmet-append_to :
    (x provider id : String) (m : Dict (List String))
    → unmet [] x (append_to provider id m) ≡ unmet [] x m + (if x == id then 1 else 0)
unfolding append_to
unmet-append_to x provider id m = ground (
  arith,
  unmet-insert x provider (listed provider m ++ id ∷ []) m,
  count_snoc x id (listed provider m),
)

-- A list's length where `x` is the plugin that the list is about.
abbrev pub at : String → String → ℕ → ℕ
at x id n = if x == id then n else 0

pub unmet-link_providers :
    (x id : String) (providers : List String) (m : Dict (List String))
    → unmet [] x (link_providers id providers m) ≡ unmet [] x m + at x id (length providers)
unfolding link_providers
unmet-link_providers x id [] m = ground arith
unmet-link_providers x id (provider ∷ more) m = ground (
  arith,
  unmet-link_providers x id more (append_to provider id m),
  unmet-append_to x provider id m,
)

pub edges-link_providers :
    (x p id : String) (providers : List String) (m : Dict (List String))
    → count x (listed p (link_providers id providers m))
      ≡ count x (listed p m) + at x id (count p providers)
unfolding link_providers count
edges-link_providers x p id [] m = ground arith
edges-link_providers x p id (provider ∷ more) m = ground (
  arith,
  edges-link_providers x p id more (append_to provider id m),
  listed-append_to provider p id m,
  count_snoc x id (listed provider m),
  eq_iff provider p,
  eq_iff p provider,
)

pub link_providers-IsKeyed :
    (id : String) (providers : List String) (m : Dict (List String))
    → IsKeyed m
    → IsKeyed (link_providers id providers m)
unfolding link_providers append_to
link_providers-IsKeyed id [] m h = h
link_providers-IsKeyed id (provider ∷ more) m h =
    link_providers-IsKeyed id more _ (insert-IsKeyed provider _ m h)
