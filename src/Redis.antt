-- ===== src/Redis.antt =====
-- The Redis stores: internal/redis/redis.go. The client library and JSON are parameters; a point of
-- time is a number of nanoseconds, a duration a signed number of nanoseconds.
pub mod Keeps
pub mod Laws
pub mod Once
pub mod Scan
pub mod Found
pub mod Sample
pub mod Tests
use accessgate.Base.{
  ℕ, suc, ◌*◌, ◌-◌, String, Bool, true, false, Option, none, some, List, [], ◌∷◌, ◌==◌,
}
use accessgate.Base.Int.{ℤ, pos, negsuc, wrap64}
use accessgate.Base.Result.{Result, ok, err}
use accessgate.Handoff.{second}
use accessgate.Session.{Session, PkceState}
use accessgate.Session.Layout.{
  KeyLayout, session_key, pkce_key, refresh_lock_key, revoked_key, replay_key,
}

-- The answer to GET and to SET with arguments; `nil` is the error redis.Nil.
pub data Reply : Type 0 where
  found : String → Reply
  nil : Reply
  failed : String → Reply

-- redis.Client over a server's state. `peek` is what the server holds at a time; the calls may fail
-- at any time.
pub record Client (S : Type 0) : Type 0 where
  pub peek : S → ℕ → String → Option String
  pub get : S → ℕ → String → Reply
  pub set : ℕ → String → String → ℤ → S → Option String × S
  pub set_args_nx : ℕ → String → String → ℤ → S → Reply × S
  pub set_nx : ℕ → String → String → ℤ → S → Result Bool × S
  pub del : ℕ → String → S → Option String × S
  pub scan : S → ℕ → ℕ → String → Result (List String × ℕ)

-- encoding/json on the two records.
pub record Json : Type 0 where
  pub marshal_session : Session → Result String
  pub unmarshal_session : String → Result Session
  pub marshal_pkce : PkceState → Result String
  pub unmarshal_pkce : String → Result PkceState

-- The server, and the operations that the metrics recorded, the latest first.
pub record World (S : Type 0) : Type 0 where
  pub server : S
  pub metrics : List (String × Bool)

-- time.Duration(ttlSeconds) * time.Second, on int64.
unfoldable pub seconds : ℤ → ℤ
seconds (pos n) = wrap64 (pos (n * second))
seconds (negsuc n) = wrap64 (negsuc (suc n * second - 1))

module _ {S : Type 0} (c : Client S) (json : Json) (k : KeyLayout) where
  abbrev recorded : {A : Type 0} → String → Bool → S → A → World S → A × World S
  recorded name fine server a w =
      (a, record { server = server; metrics = (name, fine) ∷ w.metrics })

  -- What a getter makes of a reply.
  unfoldable read_reply :
      {A : Type 0} → String → (String → Result A) → Reply → World S → Result (Option A) × World S
  read_reply name decode nil w = recorded name true w.server (ok none) w
  read_reply name decode (failed e) w = recorded name false w.server (err e) w
  read_reply name decode (found payload) w = elim (decode payload) [
    | err e ↦ recorded name false w.server (err e) w
    | ok a ↦ recorded name true w.server (ok (some a)) w
  ]

  -- What a setter makes of its encoded value.
  unfoldable write : String → ℕ → String → Result String → ℤ → World S → Option String × World S
  write name now key (err e) ttl w = recorded name false w.server (some e) w
  write name now key (ok payload) ttl w =
      let (answer, server) = c.set now key payload ttl w.server in
      elim answer [
        | some e ↦ recorded name false server (some e) w
        | none ↦ recorded name true server none w
      ]

  unfoldable erase : String → ℕ → String → World S → Option String × World S
  erase name now key w =
      let (answer, server) = c.del now key w.server in
      elim answer [
        | some e ↦ recorded name false server (some e) w
        | none ↦ recorded name true server none w
      ]

  unfoldable pub get_session : ℕ → String → World S → Result (Option Session) × World S
  unfolding read_reply
  get_session now id w =
      read_reply "session_get" json.unmarshal_session (c.get w.server now (session_key k id)) w

  unfoldable pub set_session : ℕ → String → Session → ℤ → World S → Option String × World S
  unfolding write
  set_session now id sess ttl w =
      write "session_set" now (session_key k id) (json.marshal_session sess) (seconds ttl) w

  unfoldable pub delete_session : ℕ → String → World S → Option String × World S
  unfolding erase
  delete_session now id w = erase "session_del" now (session_key k id) w

  unfoldable pub get_pkce : ℕ → String → World S → Result (Option PkceState) × World S
  unfolding read_reply
  get_pkce now state w =
      read_reply "pkce_get" json.unmarshal_pkce (c.get w.server now (pkce_key k state)) w

  unfoldable pub set_pkce : ℕ → String → PkceState → ℤ → World S → Option String × World S
  unfolding write
  set_pkce now state p ttl w =
      write "pkce_set" now (pkce_key k state) (json.marshal_pkce p) (seconds ttl) w

  unfoldable pub delete_pkce : ℕ → String → World S → Option String × World S
  unfolding erase
  delete_pkce now state w = erase "pkce_del" now (pkce_key k state) w

  unfoldable lock_answer : Reply → S → World S → Result Bool × World S
  lock_answer (found status) server w =
      recorded "refresh_lock_obtain" (status == "OK") server (ok (status == "OK")) w
  lock_answer nil server w = recorded "refresh_lock_obtain" false server (err "redis: nil") w
  lock_answer (failed e) server w = recorded "refresh_lock_obtain" false server (err e) w

  unfoldable pub obtain_refresh_lock : ℕ → String → ℤ → World S → Result Bool × World S
  unfolding lock_answer
  obtain_refresh_lock now id ttl w =
      let (answer, server) = c.set_args_nx now (refresh_lock_key k id) "1" (seconds ttl) w.server in
      lock_answer answer server w

  unfoldable pub release_refresh_lock : ℕ → String → World S → Option String × World S
  unfolding erase
  release_refresh_lock now id w = erase "refresh_lock_release" now (refresh_lock_key k id) w

  abbrev in_server : {A : Type 0} → A × S → World S → A × World S
  in_server (a, server) w = (a, record w { server = server })

  unfoldable pub set_revoked : ℕ → String → ℤ → World S → Option String × World S
  set_revoked now id ttl w = in_server (c.set now (revoked_key k id) "1" ttl w.server) w

  unfoldable is_there : Reply → Result Bool
  is_there (found payload) = ok true
  is_there nil = ok false
  is_there (failed e) = err e

  unfoldable pub is_revoked : ℕ → String → World S → Result Bool
  unfolding is_there
  is_revoked now id w = is_there (c.get w.server now (revoked_key k id))

  unfoldable pub record_replay : ℕ → String → ℤ → World S → Option String × World S
  record_replay now key ttl w = in_server (c.set now (replay_key k key) "1" ttl w.server) w

  unfoldable pub check_replay : ℕ → String → World S → Result Bool
  unfolding is_there
  check_replay now key w = is_there (c.get w.server now (replay_key k key))

  unfoldable pub consume_once : ℕ → String → ℤ → World S → Result Bool × World S
  consume_once now key ttl w = in_server (c.set_nx now (replay_key k key) "1" ttl w.server) w
