-- ===== src/Proxy/Graphql.antt =====
-- The name and the type of a GraphQL operation: internal/graphql/parser.go. encoding/json's reading
-- of an envelope is a parameter, `none` where it fails, and so is unicode.IsDigit.
pub mod Names
use Prim.Native.Char.{Char, code}
use Prim.Native.String.{[], ◌∷◌}
use accessgate.Base.{
  String, ◌==◌, Bool, true, false, not, ◌&&◌, ◌||◌, Option, none, some, leb, if◌then◌else◌,
}
use accessgate.Base.Text.{is, has_prefix, trim_space}

unfoldable pub is_ignored : Char → Bool
is_ignored c = is 0x20 c || is 0x09 c || is 0x0a c || is 0x0d c || is b',' c || is 0xfeff c

unfoldable pub is_name_start : Char → Bool
is_name_start c =
    is b'_' c
    || (leb b'A' (code c) && leb (code c) b'Z')
    || (leb b'a' (code c) && leb (code c) b'z')

unfoldable pub is_name_char : Char → Bool
is_name_char c = is_name_start c || (leb b'0' (code c) && leb (code c) b'9')

unfoldable pub all_name_chars : String → Bool
all_name_chars [] = true
all_name_chars (c ∷ s) = is_name_char c && all_name_chars s

unfoldable pub is_name : String → Bool
is_name [] = false
is_name (c ∷ s) = is_name_start c && all_name_chars s

-- The name characters at the front, and what stands behind them.
unfoldable pub read_name : String → String × String
read_name [] = ("", "")
read_name (c ∷ s) =
    let more = read_name s in if is_name_char c then (c ∷ more.0, more.1) else ("", c ∷ s)

module _ (is_digit : Char → Bool) where
  -- The next token and the rest; `in_comment` while a comment is passed over.
  unfoldable pub scan : Bool → String → Option (String × String)
  scan in_comment [] = none
  scan true (c ∷ s) =
      let behind = scan false s in let within = scan true s in if is 0x0a c then behind else within
  scan false (c ∷ s) =
      let behind = scan false s in
      let comment = scan true s in
      if is b'#' c
      then comment
      else if is_ignored c
      then behind
      else if is_name_start c || is_digit c
      then some (c ∷ (read_name s).0, (read_name s).1)
      else some (c ∷ [], s)

  unfoldable pub next_token : String → Option (String × String)
  unfolding scan
  next_token s = scan false s

  -- What follows the operation's keyword.
  unfoldable pub operation_name : String → String → String × String
  operation_name op rest = elim (next_token rest) [
    | none ↦ ("", op)
    | some (tok, more) ↦ if is_name tok then (tok, op) else ("", op)
  ]

  unfoldable pub parse_document : String → String × String
  unfolding operation_name
  parse_document doc = elim (next_token doc) [
    | none ↦ ("", "")
    | some (tok, rest) ↦
        if tok == "{"
        then ("", "query")
        else if tok == "query" || tok == "mutation" || tok == "subscription"
        then operation_name tok rest
        else ("", "")
  ]

  -- A JSON envelope by its name and its query.
  unfoldable pub parse_envelope : String → String → String × String
  parse_envelope name query =
      if not (name == "")
      then (name, (parse_document query).1)
      else if not (query == "")
      then parse_document query
      else ("", "query")

  module _ (read_envelope : String → Option (String × String)) where
    unfoldable pub extract_operation : String → String × String
    unfolding parse_envelope
    extract_operation body =
        let trimmed = trim_space body in
        if trimmed == ""
        then ("", "")
        else if has_prefix trimmed "{"
        then (elim (read_envelope trimmed) [
          | some (name, query) ↦ parse_envelope name query
          | none ↦ parse_document trimmed
        ])
        else parse_document trimmed

    pub extract_operation_name : String → String
    extract_operation_name body = (extract_operation body).0
