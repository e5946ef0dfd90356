-- ===== src/Redis/Laws.antt =====
-- What the stores of internal/redis/redis.go rely on: the documented behaviour of GET, SET, SET NX
-- and DEL with times to live, and the calls that a program makes on one Store.
use accessgate.Base.{ℕ, ◌+◌, ◌≤◌, ◌<◌, String, ◌≡◌, true, false, none, some, List, [], ◌∷◌, ◌==◌}
use accessgate.Base.Int.{ℤ, pos_part}
use accessgate.Base.Result.{ok}
use accessgate.Session.{Session, PkceState}
use accessgate.Session.Layout.{KeyLayout}
use accessgate.Session.Apart.{Purpose, for_session, for_pkce, for_lock, for_revoked, for_replay}
use accessgate.Redis.{
  found, nil, Client, Json, World, set_session, delete_session, set_pkce, delete_pkce,
  obtain_refresh_lock, release_refresh_lock, set_revoked, record_replay, consume_once,
}

-- A call that fails may or may not have had its effect on its own key; it has none on another.
pub record ClientLaws {S : Type 0} (c : Client S) : Type 0 where
  pub get_found :
      (s : S) (now : ℕ) (key v : String) → c.get s now key ≡ found v → c.peek s now key ≡ some v
  pub get_nil : (s : S) (now : ℕ) (key : String) → c.get s now key ≡ nil → c.peek s now key ≡ none
  pub set_put :
      (now later : ℕ) (key v : String) (ttl : ℤ) (s : S)
      → (c.set now key v ttl s).0 ≡ none
      → now ≤ later
      → later < now + pos_part ttl
      → c.peek (c.set now key v ttl s).1 later key ≡ some v
  pub set_apart :
      (now later : ℕ) (key v other : String) (ttl : ℤ) (s : S)
      → (key == other) ≡ false
      → c.peek (c.set now key v ttl s).1 later other ≡ c.peek s later other
  pub del_gone :
      (now later : ℕ) (key : String) (s : S)
      → (c.del now key s).0 ≡ none
      → now ≤ later
      → c.peek (c.del now key s).1 later key ≡ none
  pub del_apart :
      (now later : ℕ) (key other : String) (s : S)
      → (key == other) ≡ false
      → c.peek (c.del now key s).1 later other ≡ c.peek s later other
  pub args_first :
      (now : ℕ) (key v status : String) (ttl : ℤ) (s : S)
      → (c.set_args_nx now key v ttl s).0 ≡ found status
      → c.peek s now key ≡ none
  pub args_put :
      (now later : ℕ) (key v status : String) (ttl : ℤ) (s : S)
      → (c.set_args_nx now key v ttl s).0 ≡ found status
      → now ≤ later
      → later < now + pos_part ttl
      → c.peek (c.set_args_nx now key v ttl s).1 later key ≡ some v
  pub args_kept :
      (now later : ℕ) (key v other held : String) (ttl : ℤ) (s : S)
      → now ≤ later
      → c.peek s later other ≡ some held
      → c.peek (c.set_args_nx now key v ttl s).1 later other ≡ some held
  pub args_apart :
      (now later : ℕ) (key v other : String) (ttl : ℤ) (s : S)
      → (key == other) ≡ false
      → c.peek (c.set_args_nx now key v ttl s).1 later other ≡ c.peek s later other
  pub nx_first :
      (now : ℕ) (key v : String) (ttl : ℤ) (s : S)
      → (c.set_nx now key v ttl s).0 ≡ ok true
      → c.peek s now key ≡ none
  pub nx_put :
      (now later : ℕ) (key v : String) (ttl : ℤ) (s : S)
      → (c.set_nx now key v ttl s).0 ≡ ok true
      → now ≤ later
      → later < now + pos_part ttl
      → c.peek (c.set_nx now key v ttl s).1 later key ≡ some v
  pub nx_kept :
      (now later : ℕ) (key v other held : String) (ttl : ℤ) (s : S)
      → now ≤ later
      → c.peek s later other ≡ some held
      → c.peek (c.set_nx now key v ttl s).1 later other ≡ some held
  pub nx_apart :
      (now later : ℕ) (key v other : String) (ttl : ℤ) (s : S)
      → (key == other) ≡ false
      → c.peek (c.set_nx now key v ttl s).1 later other ≡ c.peek s later other

-- A call of the Store that changes the server.
pub data Op : Type 0 where
  sets_session : String → Session → ℤ → Op
  deletes_session : String → Op
  sets_pkce : String → PkceState → ℤ → Op
  deletes_pkce : String → Op
  obtains : String → ℤ → Op
  releases : String → Op
  revokes : String → ℤ → Op
  records consumes : String → ℤ → Op

-- The key that a call writes.
abbrev pub written : Op → Purpose × String
written (sets_session id sess ttl) = (for_session, id)
written (deletes_session id) = (for_session, id)
written (sets_pkce state p ttl) = (for_pkce, state)
written (deletes_pkce state) = (for_pkce, state)
written (obtains id ttl) = (for_lock, id)
written (releases id) = (for_lock, id)
written (revokes id ttl) = (for_revoked, id)
written (records key ttl) = (for_replay, key)
written (consumes key ttl) = (for_replay, key)

module _ {S : Type 0} (c : Client S) (json : Json) (k : KeyLayout) where
  unfoldable pub apply : ℕ → Op → World S → World S
  unfolding set_session delete_session set_pkce delete_pkce obtain_refresh_lock release_refresh_lock
      set_revoked record_replay consume_once
  apply now (sets_session id sess ttl) w = (set_session c json k now id sess ttl w).1
  apply now (deletes_session id) w = (delete_session c json k now id w).1
  apply now (sets_pkce state p ttl) w = (set_pkce c json k now state p ttl w).1
  apply now (deletes_pkce state) w = (delete_pkce c json k now state w).1
  apply now (obtains id ttl) w = (obtain_refresh_lock c json k now id ttl w).1
  apply now (releases id) w = (release_refresh_lock c json k now id w).1
  apply now (revokes id ttl) w = (set_revoked c json k now id ttl w).1
  apply now (records key ttl) w = (record_replay c json k now key ttl w).1
  apply now (consumes key ttl) w = (consume_once c json k now key ttl w).1

  -- Calls in the order in which the server sees them, each with its time.
  unfoldable pub apply_all : List (ℕ × Op) → World S → World S
  unfolding apply
  apply_all [] w = w
  apply_all ((now, op) ∷ ops) w = apply_all ops (apply now op w)
