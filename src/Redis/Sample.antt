-- ===== src/Redis/Sample.antt =====
-- A server for the tests of internal/redis/redis.go: a table of keys with their values and
-- deadlines, and JSON for two known records.
use accessgate.Base.{
  ℕ, ◌+◌, String, ◌==◌, Bool, true, false, Option, none, some, List, [], ◌∷◌, arith, ltb,
  if◌then◌else◌, eq_iff,
}
use accessgate.Base.Int.{ℤ, pos, pos_part}
use accessgate.Base.Dict.{Dict, lookup, insert, lookup-insert}
use accessgate.Base.Result.{Result, ok, err}
use accessgate.Claims.{text}
use accessgate.Session.{Session, PkceState}
use accessgate.Redis.{Client, Json, Reply, found, nil, World}
use accessgate.Redis.Laws.{ClientLaws}

abbrev pub Table : Type 0
Table = Dict (String × ℕ)

abbrev pub live : ℕ → Option (String × ℕ) → Option String
live t none = none
live t (some (v, deadline)) = if ltb t deadline then some v else none

abbrev pub reply_of : Option String → Reply
reply_of none = nil
reply_of (some v) = found v

unfoldable pub table_peek : Table → ℕ → String → Option String
unfolding lookup
table_peek s t key = live t (lookup key s)

unfoldable pub table_put : ℕ → String → String → ℤ → Table → Table
unfolding insert
table_put now key v ttl s = insert key (v, now + pos_part ttl) s

unfoldable pub table_args : ℕ → String → String → ℤ → Table → Reply × Table
unfolding table_put table_peek insert
table_args now key v ttl s = elim (table_peek s now key) [
  | none ↦ (found "OK", table_put now key v ttl s)
  | some held ↦ (nil, s)
]

unfoldable pub table_nx : ℕ → String → String → ℤ → Table → Result Bool × Table
unfolding table_put table_peek insert
table_nx now key v ttl s = elim (table_peek s now key) [
  | none ↦ (ok true, table_put now key v ttl s)
  | some held ↦ (ok false, s)
]

unfoldable pub table_keys : Table → List String
table_keys [] = []
table_keys ((key, _) ∷ more) = key ∷ table_keys more

abbrev pub table : Client Table
table = record {
  peek = table_peek;
  get = λ s t key. reply_of (table_peek s t key);
  set = λ now key v ttl s. (none, table_put now key v ttl s);
  set_args_nx = table_args;
  set_nx = table_nx;
  del = λ now key s. (none, insert key ("", 0) s);
  scan = λ s now cursor pattern. ok (table_keys s, 0);
}

pub table_laws : ClientLaws table
unfolding table_args table_nx table_peek table_put
table_laws = record {
  get_found = λ s now key v h. ground arith;
  get_nil = λ s now key h. ground arith;
  set_put = λ now later key v ttl s h order inside.
      ground (arith, lookup-insert key key (v, now + pos_part ttl) s, eq_iff key key);
  set_apart = λ now later key v other ttl s h.
      ground (arith, lookup-insert key other (v, now + pos_part ttl) s);
  del_gone =
      λ now later key s h order. ground (arith, lookup-insert key key ("", 0) s, eq_iff key key);
  del_apart = λ now later key other s h. ground (arith, lookup-insert key other ("", 0) s);
  args_first = λ now key v status ttl s h. ground arith;
  args_put = λ now later key v status ttl s h order inside.
      ground (arith, lookup-insert key key (v, now + pos_part ttl) s, eq_iff key key);
  args_kept = λ now later key v other held ttl s order h.
      ground (arith, lookup-insert key other (v, now + pos_part ttl) s, eq_iff key other);
  args_apart = λ now later key v other ttl s h.
      ground (arith, lookup-insert key other (v, now + pos_part ttl) s);
  nx_first = λ now key v ttl s h. ground arith;
  nx_put = λ now later key v ttl s h order inside.
      ground (arith, lookup-insert key key (v, now + pos_part ttl) s, eq_iff key key);
  nx_kept = λ now later key v other held ttl s order h.
      ground (arith, lookup-insert key other (v, now + pos_part ttl) s, eq_iff key other);
  nx_apart = λ now later key v other ttl s h.
      ground (arith, lookup-insert key other (v, now + pos_part ttl) s);
}

abbrev pub alice : Session
alice = record {
  id = "s1";
  access_token = "at";
  refresh_token = "rt";
  id_token = "it";
  expires_at = pos 5000;
  claims = some (("sub", text "u1") ∷ ("email", text "a@example.com") ∷ []);
  tenant_context = none;
}

abbrev pub pending : PkceState
pending = record {
  state = "st";
  code_verifier = "v";
  code_challenge = "ch";
  nonce = "n";
  redirect_to = "/";
}

abbrev pub json : Json
json = record {
  marshal_session = λ s. ok s.id;
  unmarshal_session = λ v. if v == "s1" then ok alice else err "invalid character";
  marshal_pkce = λ p. ok p.state;
  unmarshal_pkce = λ v. if v == "st" then ok pending else err "invalid character";
}

abbrev pub empty_world : World Table
empty_world = record { server = []; metrics = [] }
