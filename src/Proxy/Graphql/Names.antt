-- ===== src/Proxy/Graphql/Names.antt =====
-- What internal/graphql/parser.go reads in a document that names its operation.
use Prim.Native.Char.{Char}
use Prim.Native.String.{[], ◌∷◌, ◌++◌}
use text.Mathlib.TextLemmas.{nil-append, cons-append}
use accessgate.Base.{
  String, ◌==◌, eq_iff, ◌≡◌, refl, inl, inr, Bool, true, false, not, ◌||◌, some, arith, Bool-cases,
}
use accessgate.Base.Text.{is}
use accessgate.Proxy.Graphql.{
  is_ignored, is_name_start, is_name_char, all_name_chars, is_name, read_name, scan, next_token,
  operation_name, parse_document,
}

-- The text is at its end or goes on with something that ends a name.
unfoldable pub ends_name : String → Bool
ends_name [] = true
ends_name (c ∷ s) = not (is_name_char c)

read_name-stop : (rest : String) → ends_name rest ≡ true → read_name rest ≡ ("", rest)
unfolding ends_name read_name
read_name-stop [] h = refl
read_name-stop (c ∷ s) h = elim (Bool-cases (is_name_char c)) [
  | inl e ↦ absurd (cc (rw e at h))
  | inr e ↦ rw (e, read_name) refl
]

read_name-append :
    (w rest : String)
    → all_name_chars w ≡ true
    → ends_name rest ≡ true
    → read_name (w ++ rest) ≡ (w, rest)
unfolding all_name_chars read_name
read_name-append [] rest a h = rw nil-append (read_name-stop rest h)
read_name-append (c ∷ w) rest a h = elim (Bool-cases (is_name_char c)) [
  | inl e ↦ rw (cons-append, e, read_name) (rw (read_name-append w rest (rw e at a) h) refl)
  | inr e ↦ absurd (cc (rw e at a))
]

start-token : (c : Char) → is_name_start c ≡ true → (is b'#' c ≡ false) × (is_ignored c ≡ false)
unfolding is_name_start is_ignored
start-token c h = (ground arith, ground arith)

abbrev pub is_keyword : String → Bool
is_keyword op = op == "query" || op == "mutation" || op == "subscription"

keyword-is_name : (op : String) → is_keyword op ≡ true → is_name op ≡ true
unfolding is_name all_name_chars is_name_char is_name_start
keyword-is_name op k = elim (Bool-cases (op == "query")) [
  | inl e ↦ rw ((eq_iff op "query").0 e) refl
  | inr e ↦ (elim (Bool-cases (op == "mutation")) [
    | inl f ↦ rw ((eq_iff op "mutation").0 f) refl
    | inr f ↦ rw ((eq_iff op "subscription").0 (rw (e, f) at k)) refl
  ])
]

name-no_brace : (w : String) → is_name w ≡ true → (w == "{") ≡ false
unfolding is_name is_name_start
name-no_brace w n = elim (Bool-cases (w == "{")) [
  | inl e ↦ absurd (cc (rw ((eq_iff w "{").0 e) at n))
  | inr e ↦ e
]

space-ends_name : (s : String) → ends_name (" " ++ s) ≡ true
unfolding ends_name is_name_char is_name_start
space-ends_name s = rw cons-append refl

module _ (is_digit : Char → Bool) where
  next_token-append :
      (w rest : String)
      → is_name w ≡ true
      → ends_name rest ≡ true
      → next_token is_digit (w ++ rest) ≡ some (w, rest)
  unfolding is_name next_token scan
  next_token-append [] rest n h = absurd (cc)
  next_token-append (c ∷ w) rest n h = elim (Bool-cases (is_name_start c)) [
    | inr e ↦ absurd (cc (rw e at n))
    | inl e ↦
        let (plain, seen) = start-token c e in
        rw (cons-append, plain, seen, e, scan) (rw (read_name-append w rest (rw e at n) h) refl)
  ]

  -- A space before the token is passed over.
  next_token-space : (s : String) → next_token is_digit (" " ++ s) ≡ next_token is_digit s
  unfolding next_token scan is_ignored
  next_token-space s = rw (cons-append, nil-append) refl

  -- Whatever follows the name, a document that is an operation's keyword, a space and a name is read
  -- as this operation with this name, if what follows does not go on with the name.
  pub parse_document-named :
      (op name rest : String)
      → is_keyword op ≡ true
      → is_name name ≡ true
      → ends_name rest ≡ true
      → parse_document is_digit (op ++ (" " ++ (name ++ rest))) ≡ (name, op)
  unfolding parse_document operation_name
  parse_document-named op name rest k n h =
      let o = keyword-is_name op k in
      rw
        (
          next_token-append op (" " ++ (name ++ rest)) o (space-ends_name (name ++ rest)),
          name-no_brace op o,
          k,
          parse_document,
        )
        (rw (next_token-space, next_token-append name rest n h, n, operation_name) refl)
