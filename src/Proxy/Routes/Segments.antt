-- ===== src/Proxy/Routes/Segments.antt =====
-- pathMatches of internal/proxy/httpserver/server.go, on the segments of a path.
use Prim.Native.String.{◌++◌}
use text.Mathlib.TextLemmas.{append_assoc}
use accessgate.Base.{String, ◌≡◌, refl, sym, ap, ◌∙◌, ◌⊎◌, ◌↔◌, inl, inr, true, List, [], ◌∷◌}
use accessgate.Base.Text.{split, join}
use accessgate.Base.Split.{
  ◌+++◌, split-some, split-append, join-split, join-append, slash-append, slash,
}
use accessgate.Proxy.Routes.{path_matches}
use accessgate.Proxy.Routes.Choice.{path_matches_iff}

-- The first segments of the path are those of the prefix.
abbrev pub IsWithin : String → String → Type 0
IsWithin path prefix = (rest : List String) × (split b'/' path ≡ (split b'/' prefix +++ rest))

append_none : (xs : List String) → xs +++ [] ≡ xs
append_none [] = refl
append_none (x ∷ xs) = ap (λ l. x ∷ l) (append_none xs)

below-IsWithin : (prefix r : String) → IsWithin ((prefix ++ "/") ++ r) prefix
below-IsWithin prefix r = (
  split b'/' r,
  ap (split b'/') (append_assoc prefix "/" r ∙ ap (λ s. prefix ++ s) (slash-append r))
      ∙ split-append b'/' slash prefix r refl,
)

joined :
    (path prefix : String) (p q : String) (ps qs : List String)
    → split b'/' prefix ≡ p ∷ ps
    → split b'/' path ≡ (split b'/' prefix +++ (q ∷ qs))
    → path ≡ (prefix ++ "/") ++ join "/" (q ∷ qs)
joined path prefix p q ps qs named same =
    let whole : join "/" (p ∷ ps) ≡ prefix = ap (join "/") (sym named) ∙ join-split prefix in
    sym (join-split path)
    ∙ (ap (join "/") (same ∙ ap (λ l. l +++ (q ∷ qs)) named)
        ∙ (join-append p ps q qs
            ∙ (ap (λ s. s ++ ("/" ++ join "/" (q ∷ qs))) whole
                ∙ sym (append_assoc prefix "/" (join "/" (q ∷ qs))))))

IsWithin-cases :
    (path prefix : String)
    → IsWithin path prefix
    → (path ≡ prefix) ⊎ ((r : String) × (path ≡ (prefix ++ "/") ++ r))
IsWithin-cases path prefix ([], same) = inl (
    sym (join-split path)
    ∙ (ap (join "/") (same ∙ append_none (split b'/' prefix)) ∙ join-split prefix))
IsWithin-cases path prefix (q ∷ qs, same) =
    let (p, ps, named) = split-some b'/' prefix in
    inr (join "/" (q ∷ qs), joined path prefix p q ps qs named same)

-- A prefix serves a path exactly when it is empty or the root, or when the segments between the
-- slashes of the path begin with those of the prefix: "/api" serves "/api/users" and not
-- "/apikeys".
pub path_matches-segments :
    (path prefix : String)
    → (path_matches path prefix ≡ true) ↔ ((prefix ≡ "") ⊎ (prefix ≡ "/") ⊎ IsWithin path prefix)
path_matches-segments path prefix = (
  λ h. elim ((path_matches_iff path prefix).0 h) [
    | inl e ↦ inl e
    | inr (inl e) ↦ inr (inl e)
    | inr (inr (inl e)) ↦ inr (inr ([], ap (split b'/') e ∙ sym (append_none (split b'/' prefix))))
    | inr (inr (inr (r, e))) ↦
        let (rest, same) = below-IsWithin prefix r in inr (inr (rest, ap (split b'/') e ∙ same))
  ],
  λ cases. (path_matches_iff path prefix).1 (elim cases [
    | inl e ↦ inl e
    | inr (inl e) ↦ inr (inl e)
    | inr (inr within) ↦ inr (inr (IsWithin-cases path prefix within))
  ]),
)
