-- ===== src/Proxy/Routes/Choice.antt =====
-- matchRoute of internal/proxy/httpserver/server.go chooses the first of the matching routes with
-- the longest prefix.
use Prim.Native.String.{◌++◌}
use accessgate.Base.{
  ◌<◌, ◌≤◌, String, ◌==◌, eq_iff, ◌≡◌, refl, ap, ◌↔◌, ◌⊎◌, inl, inr, true, false, Option, none,
  some, List, [], ◌∷◌, ◌++◌ as ◌++ᴸ◌, All, ltb, Bool-cases, arith,
}
use accessgate.Base.Text.{has_prefix, has_prefix_iff}
use accessgate.Proxy.Routes.{
  Route, path_matches, matches, prefix_length, is_longer, pick, match_from, match_route,
}

module _ {E : Type 0} (host path : String) where
  -- The route does not match, or its prefix is shorter than that of `rt`.
  abbrev pub IsShorter : Route E → Route E → Type 0
  IsShorter rt r = matches host path r ≡ true → prefix_length r < prefix_length rt

  abbrev pub IsNoLonger : Route E → Route E → Type 0
  IsNoLonger rt r = matches host path r ≡ true → prefix_length r ≤ prefix_length rt

  -- The route is no better than the best so far.
  abbrev pub Loses : Option (Route E) → Route E → Type 0
  Loses none r = matches host path r ≡ false
  Loses (some best) r = IsNoLonger best r

  -- How the loop ends that starts with `best`.
  pub data Ends (best : Option (Route E)) (routes : List (Route E))
      : Option (Route E) → Type 0 where
    kept : All (Loses best) routes → Ends best routes best
    taken :
        (before : List (Route E)) (rt : Route E) (after : List (Route E))
        → routes ≡ before ++ᴸ (rt ∷ after)
        → matches host path rt ≡ true
        → is_longer rt best ≡ true
        → All (IsShorter rt) before
        → All (IsNoLonger rt) after
        → Ends best routes (some rt)

  longer_trans :
      (best : Option (Route E)) (x rt : Route E)
      → is_longer x best ≡ true
      → is_longer rt (some x) ≡ true
      → is_longer rt best ≡ true
  unfolding is_longer
  longer_trans none x rt h k = refl
  longer_trans (some b) x rt h k = ground arith

  longer-lt : (x rt : Route E) → is_longer rt (some x) ≡ true → prefix_length x < prefix_length rt
  unfolding is_longer
  longer-lt x rt h = ground arith

  Loses-IsShorter :
      (best : Option (Route E)) (x rt : Route E)
      → Loses best x
      → is_longer rt best ≡ true
      → IsShorter rt x
  unfolding is_longer
  Loses-IsShorter none x rt h k m = absurd (cc)
  Loses-IsShorter (some b) x rt h k m = let le = h m in ground arith

  pick-cases :
      (best : Option (Route E)) (x : Route E)
      → ((pick host path best x ≡ some x)
          × (matches host path x ≡ true)
          × (is_longer x best ≡ true))
        ⊎ ((pick host path best x ≡ best) × Loses best x)
  unfolding pick is_longer
  pick-cases none x = elim (Bool-cases (matches host path x)) [
    | inl m ↦ inl (rw (m, pick) refl, m, refl)
    | inr m ↦ inr (rw (m, pick) refl, m)
  ]
  pick-cases (some b) x = elim (Bool-cases (matches host path x)) [
    | inr m ↦ inr (rw (m, pick) refl, λ n. absurd (cc))
    | inl m ↦ (elim (Bool-cases (ltb (prefix_length b) (prefix_length x))) [
      | inl l ↦ inl (rw (m, l, pick) refl, m, l)
      | inr l ↦ inr (rw (m, l, pick) refl, λ n. ground arith)
    ])
  ]

  Ends-won :
      (best : Option (Route E)) (x : Route E) (rest : List (Route E)) (r : Option (Route E))
      → matches host path x ≡ true
      → is_longer x best ≡ true
      → Ends (some x) rest r
      → Ends best (x ∷ rest) r
  Ends-won best x rest _ m l (kept all) = taken [] x rest refl m l tt all
  Ends-won best x rest _ m l (taken before rt after e n k b a) =
      taken (x ∷ before) rt after (ap (λ u. x ∷ u) e) n (longer_trans best x rt l k)
        (λ _. longer-lt x rt k, b) a

  Ends-lost :
      (best : Option (Route E)) (x : Route E) (rest : List (Route E)) (r : Option (Route E))
      → Loses best x
      → Ends best rest r
      → Ends best (x ∷ rest) r
  Ends-lost best x rest _ l (kept all) = kept (l, all)
  Ends-lost best x rest _ l (taken before rt after e n k b a) =
      taken (x ∷ before) rt after (ap (λ u. x ∷ u) e) n k (Loses-IsShorter best x rt l k, b) a

  match_from-Ends :
      (best : Option (Route E)) (routes : List (Route E))
      → Ends best routes (match_from host path best routes)
  unfolding match_from
  match_from-Ends best [] = kept tt
  match_from-Ends best (x ∷ rest) = elim (pick-cases best x) [
    | inl (e, m, l) ↦
        rw (e, match_from) (Ends-won best x rest _ m l (match_from-Ends (some x) rest))
    | inr (e, l) ↦ rw (e, match_from) (Ends-lost best x rest _ l (match_from-Ends best rest))
  ]

  -- matchRoute finds no route exactly when none matches the host and the path. Otherwise the route
  -- it finds matches, every matching route before it in the table has a shorter prefix, and every
  -- matching route behind it has none that is longer.
  pub match_route-Ends : (routes : List (Route E)) → Ends none routes (match_route host path routes)
  unfolding match_route
  match_route-Ends routes = match_from-Ends none routes

path_matches-tests :
    (path prefix : String)
    → (path_matches path prefix ≡ true) ↔ (
        ((prefix == "") ≡ true)
        ⊎ ((prefix == "/") ≡ true)
        ⊎ ((path == prefix) ≡ true)
        ⊎ (has_prefix path (prefix ++ "/") ≡ true))
unfolding path_matches
path_matches-tests path prefix = ground arith

-- A prefix serves a path exactly when it is empty, the root or the path itself, or when it ends
-- where a segment of the path does: "/api" serves "/api/users" and not "/apikeys".
pub path_matches_iff :
    (path prefix : String)
    → (path_matches path prefix ≡ true) ↔ (
        (prefix ≡ "")
        ⊎ (prefix ≡ "/")
        ⊎ (path ≡ prefix)
        ⊎ ((r : String) × (path ≡ (prefix ++ "/") ++ r)))
unfolding path_matches
path_matches_iff path prefix = (
  λ h. elim ((path_matches-tests path prefix).0 h) [
    | inl e ↦ inl ((eq_iff _ _).0 e)
    | inr (inl e) ↦ inr (inl ((eq_iff _ _).0 e))
    | inr (inr (inl e)) ↦ inr (inr (inl ((eq_iff _ _).0 e)))
    | inr (inr (inr e)) ↦ inr (inr (inr ((has_prefix_iff _ _).0 e)))
  ],
  λ cases. (path_matches-tests path prefix).1 (elim cases [
    | inl e ↦ inl ((eq_iff _ _).1 e)
    | inr (inl e) ↦ inr (inl ((eq_iff _ _).1 e))
    | inr (inr (inl e)) ↦ inr (inr (inl ((eq_iff _ _).1 e)))
    | inr (inr (inr e)) ↦ inr (inr (inr ((has_prefix_iff _ _).1 e)))
  ]),
)
