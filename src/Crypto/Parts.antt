-- ===== src/Crypto/Parts.antt =====
-- A text without the separator is what `cut` finds before it: strings.SplitN(s, ".", 2).
use Prim.Native.Char.{Char}
use Prim.Native.String.{[], ◌∷◌, ◌++◌}
use text.Mathlib.TextLemmas.{nil-append, cons-append}
use accessgate.Base.{
  ℕ, String, ◌≡◌, Bool, true, false, ◌||◌, Option, none, some, arith, if◌then◌else◌, inl, inr,
  Bool-cases, Option-cases,
}
use accessgate.Base.Text.{is, cut}

unfoldable pub contains_char : ℕ → String → Bool
contains_char n [] = false
contains_char n (c ∷ s) = is n c || contains_char n s

abbrev put_back : Char → Option (String × String) → Option (String × String)
put_back c none = none
put_back c (some (a, b)) = some (c ∷ a, b)

cut-cons :
    (n : ℕ) (c : Char) (s : String)
    → cut n (c ∷ s) ≡ (if is n c then some ("", s) else put_back c (cut n s))
unfolding cut
cut-cons n c s = ground arith

-- The first separator ends the first part.
pub cut-append :
    (n : ℕ) (d : Char) (a b : String)
    → is n d ≡ true
    → contains_char n a ≡ false
    → cut n (a ++ (d ∷ b)) ≡ some (a, b)
unfolding contains_char
cut-append n d [] b sep free = rw (nil-append, cut-cons, sep)
cut-append n d (c ∷ a) b sep free =
    rw (cons-append, cut-cons) (ground (arith, cut-append n d a b sep))

-- What is cut is the text.
pub cut-eq :
    (n : ℕ) (s a b : String)
    → cut n s ≡ some (a, b)
    → (d : Char) × (is n d ≡ true) × (s ≡ a ++ (d ∷ b))
cut-eq n [] a b h = unfold cut in cc h
cut-eq n (c ∷ s) a b h = elim (Bool-cases (is n c)) [
  | inl sep ↦ (c, sep, cc (rw (cut-cons, sep) at h, nil-append (c ∷ s)))
  | inr other ↦ elim (Option-cases (cut n s)) [
    | inl missed ↦ absurd (cc (rw (cut-cons, other, missed) at h))
    | inr ((p, q), found) ↦
        let (d, sep, e) = cut-eq n s p q found in
        (d, sep, cc (rw (cut-cons, other, found) at h, e, cons-append c p (d ∷ q)))
  ]
]
