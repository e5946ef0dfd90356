-- ===== src/Base/Text.antt =====
-- The functions of Go's package `strings` that the program calls, on texts by their characters.
use Prim.Native.Char.{Char, code}
use Prim.Native.String.{String, [], ◌∷◌, ◌++◌}
use Prim.Native.Nat.{ℕ, ◌+◌}
use mathlib.Core.Path.{◌≡◌, refl, ap}
use mathlib.Core.Bool.{Bool, true, false, not, ◌&&◌, ◌||◌}
use mathlib.Core.Option.{Option, none, some}
use mathlib.Core.Logic.{◌↔◌, inl, inr}
use mathlib.Core.List.{List}
use text.Mathlib.Text.{◌==◌}
use text.Mathlib.TextEquality.{Char-path}
use text.Mathlib.TextLemmas.{nil-append, cons-append}
use accessgate.Base.Tests.{leb, eqb, is_some, if◌then◌else◌, eqb_iff, Bool-cases, Option-cases}

-- A separator or bracket is compared by its code point.
abbrev pub is : ℕ → Char → Bool
is n c = eqb (code c) n

-- What is left of `s` behind the prefix `p`, if it has that prefix.
unfoldable pub strip_prefix? : String → String → Option String
strip_prefix? [] s = some s
strip_prefix? (c ∷ p) [] = none
strip_prefix? (c ∷ p) (d ∷ s) = if eqb (code c) (code d) then strip_prefix? p s else none

-- strings.HasPrefix
unfoldable pub has_prefix : String → String → Bool
unfolding strip_prefix?
has_prefix s p = is_some (strip_prefix? p s)

abbrev or_else : Option String → String → String
or_else none s = s
or_else (some t) s = t

-- strings.TrimPrefix
unfoldable pub trim_prefix : String → String → String
unfolding strip_prefix?
trim_prefix s p = or_else (strip_prefix? p s) s

-- strings.TrimSuffix(s, "/")
unfoldable pub trim_slash : String → String
trim_slash [] = []
trim_slash (c ∷ s) = if is b'/' c && (s == "") then [] else c ∷ trim_slash s

-- unicode.IsSpace
unfoldable pub is_space : Char → Bool
is_space c =
    (leb 0x09 (code c) && leb (code c) 0x0d)
    || is 0x20 c
    || is 0x85 c
    || is 0xa0 c
    || is 0x1680 c
    || (leb 0x2000 (code c) && leb (code c) 0x200a)
    || is 0x2028 c
    || is 0x2029 c
    || is 0x202f c
    || is 0x205f c
    || is 0x3000 c

trim_left : String → String
trim_left [] = []
trim_left (c ∷ s) = if is_space c then trim_left s else c ∷ s

trim_right : String → String
trim_right [] = []
trim_right (c ∷ s) = let rest = trim_right s in if is_space c && (rest == "") then [] else c ∷ rest

-- strings.TrimSpace
unfoldable pub trim_space : String → String
unfolding trim_left trim_right is_space
trim_space s = trim_right (trim_left s)

abbrev pub first_part : Char → List String → List String
first_part c List.[] = List.◌∷◌ (c ∷ []) List.[]
first_part c (List.◌∷◌ p ps) = List.◌∷◌ (c ∷ p) ps

-- strings.Split(s, sep) for a separator of one character.
unfoldable pub split : ℕ → String → List String
split sep [] = List.◌∷◌ "" List.[]
split sep (c ∷ s) =
    let rest = split sep s in if is sep c then List.◌∷◌ "" rest else first_part c rest

-- strings.SplitN(s, sep, 2), where both parts are wanted: what stands before and behind the first
-- separator.
unfoldable pub cut : ℕ → String → Option (String × String)
cut sep [] = none
cut sep (c ∷ s) =
    let rest = cut sep s in
    if is sep c then some ("", s) else elim rest [ none ↦ none | some (a, b) ↦ some (c ∷ a, b) ]

-- What stands before and behind the last separator, found by strings.LastIndex.
unfoldable pub cut_last : ℕ → String → Option (String × String)
cut_last sep [] = none
cut_last sep (c ∷ s) = elim (cut_last sep s) [
  | none ↦ if is sep c then some ("", s) else none
  | some (a, b) ↦ some (c ∷ a, b)
]

-- strings.ReplaceAll for one character by another, and strings.Map that drops CR and LF.
unfoldable pub replace : ℕ → Char → String → String
replace old new [] = []
replace old new (c ∷ s) = (if is old c then new else c) ∷ replace old new s

abbrev pub is_line_break : Char → Bool
is_line_break c = is 0x0d c || is 0x0a c

unfoldable pub strip_line_breaks : String → String
strip_line_breaks [] = []
strip_line_breaks (c ∷ s) =
    let rest = strip_line_breaks s in if is_line_break c then rest else c ∷ rest

-- No carriage return or line feed.
unfoldable pub is_one_line : String → Bool
is_one_line [] = true
is_one_line (c ∷ s) = not (is_line_break c) && is_one_line s

pub strip_line_breaks-is_one_line : (s : String) → is_one_line (strip_line_breaks s) ≡ true
unfolding strip_line_breaks is_one_line
strip_line_breaks-is_one_line [] = refl
strip_line_breaks-is_one_line (c ∷ s) = elim (Bool-cases (is_line_break c)) [
  | inl b ↦ rw (b, strip_line_breaks) (strip_line_breaks-is_one_line s)
  | inr b ↦ rw (b, strip_line_breaks) (rw (b, is_one_line) (strip_line_breaks-is_one_line s))
]

-- Equality but for the case of ASCII letters.
abbrev fold_code : ℕ → ℕ
fold_code n = if leb 0x41 n && leb n 0x5a then n + 32 else n

unfoldable pub eq_fold : String → String → Bool
eq_fold [] [] = true
eq_fold (c ∷ s) (d ∷ t) = eqb (fold_code (code c)) (fold_code (code d)) && eq_fold s t
eq_fold _ _ = false

-- strings.Join
unfoldable pub join : String → List String → String
join sep List.[] = ""
join sep (List.◌∷◌ a List.[]) = a
join sep (List.◌∷◌ a (List.◌∷◌ b more)) = a ++ (sep ++ join sep (List.◌∷◌ b more))

pub strip_prefix?-append : (p s : String) → strip_prefix? p (p ++ s) ≡ some s
unfolding strip_prefix?
strip_prefix?-append [] s = rw nil-append
strip_prefix?-append (c ∷ p) s =
    rw cons-append (rw ((eqb_iff (code c) (code c)).1 refl) (strip_prefix?-append p s))

-- A prefix that is stripped stood there.
pub strip_prefix?-eq : (p s r : String) → strip_prefix? p s ≡ some r → s ≡ p ++ r
unfolding strip_prefix?
strip_prefix?-eq [] s r h = rw nil-append (cc)
strip_prefix?-eq (c ∷ p) [] r h = cc
strip_prefix?-eq (c ∷ p) (d ∷ s) r h = elim (Bool-cases (eqb (code c) (code d))) [
  | inl same ↦
      rw (cons-append, ← Char-path c d ((eqb_iff _ _).0 same))
        (ap (λ t. c ∷ t) (strip_prefix?-eq p s r (rw same at h)))
  | inr other ↦ cc (rw other at h)
]

pub has_prefix-append : (p s : String) → has_prefix (p ++ s) p ≡ true
unfolding has_prefix
has_prefix-append p s = rw (strip_prefix?-append p s)

-- A text has the prefix exactly when it is the prefix followed by something.
pub has_prefix_iff : (s p : String) → (has_prefix s p ≡ true) ↔ ((r : String) × (s ≡ p ++ r))
unfolding has_prefix
has_prefix_iff s p = (
  λ h. elim (Option-cases (strip_prefix? p s)) [
    | inl missed ↦ cc (rw missed at h)
    | inr (r, found) ↦ (r, strip_prefix?-eq p s r found)
  ],
  λ (r, e). rw (e, strip_prefix?-append p r),
)
