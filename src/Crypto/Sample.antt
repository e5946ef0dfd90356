-- ===== src/Crypto/Sample.antt =====
-- A codec that satisfies the assumptions: "." and "%" are escaped. The sample signature is the
-- secret and the data side by side.
use Prim.Native.Char.{Char, code}
use Prim.Native.String.{[], ◌∷◌, ◌++◌}
use text.Mathlib.TextEquality.{Char-path}
use accessgate.Base.{
  String, ◌≡◌, refl, false, Option, none, some, arith, if◌then◌else◌, inl, inr, Bool-cases, eqb_iff,
}
use accessgate.Base.Text.{is}
use accessgate.Crypto.Parts.{contains_char}
use accessgate.Crypto.Defs.{Crypto, CryptoLaws}

abbrev dot : Char
dot = "."

abbrev percent : Char
percent = "%"

abbrev letter_d : Char
letter_d = "d"

unfoldable pub escape : String → String
escape [] = []
escape (c ∷ s) =
    let rest = escape s in
    if is b'.' c
    then percent ∷ letter_d ∷ rest
    else if is b'%' c
    then percent ∷ percent ∷ rest
    else c ∷ rest

abbrev push : Char → Option String → Option String
push c none = none
push c (some s) = some (c ∷ s)

unfoldable pub unescape : String → Option String
unescape [] = some []
unescape (c ∷ []) = if is b'%' c then none else some (c ∷ [])
unescape (c ∷ d ∷ s) =
    let pair = unescape s in
    let rest = unescape (d ∷ s) in
    if is b'%' c
    then (if is b'd' d then push dot pair else if is b'%' d then push percent pair else none)
    else push c rest

unescape-plain :
    (c : Char) (s : String) → is b'%' c ≡ false → unescape (c ∷ s) ≡ push c (unescape s)
unfolding unescape
unescape-plain c [] h = rw h
unescape-plain c (d ∷ s) h = rw h

unescape-dot : (s : String) → unescape (percent ∷ letter_d ∷ s) ≡ push dot (unescape s)
unfolding unescape
unescape-dot s = refl

unescape-percent : (s : String) → unescape (percent ∷ percent ∷ s) ≡ push percent (unescape s)
unfolding unescape
unescape-percent s = refl

unescape-escape : (s : String) → unescape (escape s) ≡ some s
unfolding escape
unescape-escape [] = unfold unescape in refl
unescape-escape (c ∷ s) = elim (Bool-cases (is b'.' c)) [
  | inl is_dot ↦
      rw (is_dot, Char-path c dot ((eqb_iff (code c) b'.').0 is_dot))
        (rw (unescape-dot, unescape-escape s))
  | inr other ↦ elim (Bool-cases (is b'%' c)) [
    | inl is_percent ↦
        rw (other, is_percent, Char-path c percent ((eqb_iff (code c) b'%').0 is_percent))
          (rw (unescape-percent, unescape-escape s))
    | inr plain ↦ rw (other, plain, unescape-plain c (escape s) plain, unescape-escape s)
  ]
]

escape-no_dot : (s : String) → contains_char b'.' (escape s) ≡ false
unfolding escape contains_char
escape-no_dot [] = refl
escape-no_dot (c ∷ s) = ground (arith, escape-no_dot s)

unfoldable pub sample_crypto : Crypto
unfolding escape unescape
sample_crypto = record {
  hmac = λ secret data'. secret ++ (":" ++ data');
  encode64 = escape;
  decode64 = unescape;
}

pub sample_laws : CryptoLaws sample_crypto
unfolding sample_crypto
sample_laws = record { decode-encode = unescape-escape; no_dot = escape-no_dot }
