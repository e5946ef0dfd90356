-- ===== src/Base/Split.antt =====
-- What strings.Split by one character makes of a text.
use Prim.Native.Char.{Char}
use Prim.Native.Nat.{ℕ}
use Prim.Native.String.{String, ◌++◌}
use mathlib.Core.Path.{◌≡◌, refl, ap, ◌∙◌, sym}
use mathlib.Core.Bool.{true, false}
use mathlib.Core.Logic.{inl, inr}
use mathlib.Core.List.{List, [], ◌∷◌}
use mathlib.Core.List
use text.Mathlib.TextEquality.{Char-path}
use text.Mathlib.TextLemmas.{nil-append, cons-append, append_assoc}
use accessgate.Base.Tests.{eqb_iff, Bool-cases}
use accessgate.Base.Text.{is, split, first_part, join}

infixr 60 ◌+++◌
abbrev pub ◌+++◌ : List String → List String → List String
xs +++ ys = List.◌++◌ xs ys

first_part-append :
    (c : Char) (p : String) (ps qs : List String)
    → first_part c ((p ∷ ps) +++ qs) ≡ (first_part c (p ∷ ps) +++ qs)
first_part-append c p ps qs = refl

split-other :
    (sep : ℕ) (c : Char) (s : String)
    → is sep c ≡ false
    → split sep (String.◌∷◌ c s) ≡ first_part c (split sep s)
unfolding split
split-other sep c s e = rw (e, split) refl

split-sep :
    (sep : ℕ) (c : Char) (s : String)
    → is sep c ≡ true
    → split sep (String.◌∷◌ c s) ≡ "" ∷ split sep s
unfolding split
split-sep sep c s e = rw (e, split) refl

pub split-some : (sep : ℕ) (s : String) → (p : String) × (ps : List String) × (split sep s ≡ p ∷ ps)
unfolding split
split-some sep String.[] = ("", [], refl)
split-some sep (String.◌∷◌ c s) = elim (Bool-cases (is sep c)) [
  | inl e ↦ ("", split sep s, split-sep sep c s e)
  | inr e ↦
      let (p, ps, same) = split-some sep s in
      (String.◌∷◌ c p, ps, split-other sep c s e ∙ ap (first_part c) same)
]

first_part-split :
    (c : Char) (sep : ℕ) (s : String) (qs : List String)
    → first_part c (split sep s +++ qs) ≡ (first_part c (split sep s) +++ qs)
first_part-split c sep s qs =
    let (p, ps, same) = split-some sep s in rw same (first_part-append c p ps qs)

pub split-append :
    (sep : ℕ) (d : Char) (p r : String)
    → is sep d ≡ true
    → split sep (p ++ String.◌∷◌ d r) ≡ (split sep p +++ split sep r)
unfolding split
split-append sep d String.[] r h = rw nil-append (split-sep sep d r h)
split-append sep d (String.◌∷◌ c p) r h = rw cons-append (elim (Bool-cases (is sep c)) [
  | inl e ↦
      split-sep sep c _ e
      ∙ (ap (λ l. "" ∷ l) (split-append sep d p r h)
          ∙ ap (λ l. l +++ split sep r) (sym (split-sep sep c p e)))
  | inr e ↦
      split-other sep c _ e
      ∙ (ap (first_part c) (split-append sep d p r h)
          ∙ (first_part-split c sep p (split sep r)
              ∙ ap (λ l. l +++ split sep r) (sym (split-other sep c p e))))
])

-- The texts between slashes, joined by slashes.
join-first_part :
    (c : Char) (p : String) (ps : List String)
    → join "/" (first_part c (p ∷ ps)) ≡ String.◌∷◌ c (join "/" (p ∷ ps))
unfolding join
join-first_part c p [] = refl
join-first_part c p (q ∷ ps) = rw cons-append refl

abbrev pub slash : Char
slash = "/"

pub slash-append : (s : String) → "/" ++ s ≡ String.◌∷◌ slash s
slash-append s = rw (cons-append, nil-append) refl

slash_cons :
    (c : Char) (s p : String) (ps : List String)
    → is b'/' c ≡ true
    → join "/" (p ∷ ps) ≡ s
    → join "/" ("" ∷ (p ∷ ps)) ≡ String.◌∷◌ c s
unfolding join
slash_cons c s p ps e whole =
    let same : slash ≡ c = sym (Char-path c slash ((eqb_iff _ _).0 e)) in
    rw nil-append (
      slash-append (join "/" (p ∷ ps))
      ∙ (ap (String.◌∷◌ slash) whole ∙ ap (λ d. String.◌∷◌ d s) same))

pub join-split : (s : String) → join "/" (split b'/' s) ≡ s
unfolding split join
join-split String.[] = refl
join-split (String.◌∷◌ c s) =
    let (p, ps, same) = split-some b'/' s in
    let whole : join "/" (p ∷ ps) ≡ s = ap (join "/") (sym same) ∙ join-split s in
    elim (Bool-cases (is b'/' c)) [
      | inl e ↦
          ap (join "/") (split-sep b'/' c s e ∙ ap (λ l. "" ∷ l) same) ∙ slash_cons c s p ps e whole
      | inr e ↦
          ap (join "/") (split-other b'/' c s e ∙ ap (first_part c) same)
          ∙ (join-first_part c p ps ∙ ap (String.◌∷◌ c) whole)
    ]

pub join-append :
    (p : String) (ps : List String) (q : String) (qs : List String)
    → join "/" ((p ∷ ps) +++ (q ∷ qs)) ≡ join "/" (p ∷ ps) ++ ("/" ++ join "/" (q ∷ qs))
unfolding join
join-append p [] q qs = refl
join-append p (o ∷ ps) q qs =
    let rest = join-append o ps q qs in
    rw (append_assoc, append_assoc) (ap (λ s. p ++ ("/" ++ s)) rest)
