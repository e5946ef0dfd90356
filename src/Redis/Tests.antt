-- ===== src/Redis/Tests.antt =====
-- Runs of the stores of internal/redis/redis.go on a sample server, and the theorems at its inputs.
use accessgate.Base.{
  All, ℕ, ◌+◌, ◌*◌, ◌≤◌, ◌<◌, String, ◌≡◌, ◌≢◌, ◌⊎◌, refl, true, none, some, List, [], ◌∷◌, arith,
}
use accessgate.Base.Text.{trim_space}
use accessgate.Base.Int.{ℤ, pos_part, pos, wrap64}
use accessgate.Base.Dict.{insert, lookup}
use accessgate.Base.Result.{ok, err}
use accessgate.Claims.{get_claim_string}
use accessgate.Handoff.{second}
use accessgate.Session.{is_expired}
use accessgate.Session.Layout.{refresh_lock_key, KeyLayout, session_key}
use accessgate.Session.Apart.{for_session, for_lock, key_of, key_of-apart}
use accessgate.Auth.Sample.{web_config}
use accessgate.Auth.Settings.Defaults.{connector_key_layout}
use accessgate.Redis.{
  consume_once, failed, World, seconds, get_session, set_session, obtain_refresh_lock,
}
use accessgate.Redis.Laws.{records, written, Op, sets_pkce, obtains, consumes, apply_all, releases}
use accessgate.Redis.Keeps.{session_survives, lock-IsExclusive}
use accessgate.Redis.Once.{consume_once-IsExclusive}
use accessgate.Redis.Scan.{find_session, delete_sessions}
use accessgate.Redis.Found.{IsLiveMatch, find_session-IsMatch, delete_sessions-apart}
use accessgate.Redis.Sample.{
  Table, table, table_laws, table_args, table_nx, table_peek, table_keys, json, alice, pending,
  empty_world,
}

abbrev keys_of_web : KeyLayout
keys_of_web = connector_key_layout web_config

-- Another login and another lock in between.
abbrev meanwhile : List (ℕ × Op)
meanwhile =
    (1 * second, sets_pkce "st" pending (pos 300))
    ∷ (2 * second, obtains "s2" (pos 15))
    ∷ (3 * second, consumes "handoff:j1" (pos 5))
    ∷ []

stored_fine : (set_session table json keys_of_web 0 "s1" alice (pos 10) empty_world).0 ≡ none
unfolding set_session
stored_fine = refl

lock_free : (obtain_refresh_lock table json keys_of_web 0 "s1" (pos 10) empty_world).0 ≡ ok true
unfolding obtain_refresh_lock table_args lookup
lock_free = refl

in_time : 5 * second < 0 + pos_part (seconds (pos 10))
unfolding seconds wrap64
in_time = omega arith

elsewhere : All (λ o. written o.1 ≢ (for_session, "s1")) meanwhile
elsewhere = (λ e. cc, (λ e. cc, (λ e. cc, tt)))

no_release : All (λ o. (o.0 ≤ 5 * second) × (o.1 ≢ releases "s1")) meanwhile
no_release = ((omega arith, λ e. cc), ((omega arith, λ e. cc), ((omega arith, λ e. cc), tt)))

-- A lock that is held: SET NX answers with redis.Nil, which Obtain passes on as an error.
held_lock :
    (obtain_refresh_lock table json keys_of_web
      (1 * second)
      "s1"
      (pos 10)
      (obtain_refresh_lock table json keys_of_web 0 "s1" (pos 10) empty_world).1).0
    ≡ err "redis: nil"
unfolding obtain_refresh_lock table_args lookup seconds wrap64 insert refresh_lock_key
    connector_key_layout
held_lock = refl

-- The connector "session" of the prefix "auth" shares keys with the default connector.
shared_key :
    session_key
      (connector_key_layout (record web_config { session_redis_prefix = "auth:session" }))
      "x"
    ≡ session_key
        (connector_key_layout (record web_config { session_redis_prefix = "auth" }))
        "session:x"
unfolding session_key connector_key_layout
shared_key = refl

session_survives_example :
    ((get_session table json keys_of_web (5 * second) "s1" (
        apply_all table json keys_of_web meanwhile
          (set_session table json keys_of_web 0 "s1" alice (pos 10) empty_world).1)).0
      ≡ ok (some alice))
    ⊎ ((e : String) × (table.get
            ((apply_all table json keys_of_web meanwhile
              (set_session table json keys_of_web 0 "s1" alice (pos 10) empty_world).1).server)
            (5 * second)
            (key_of keys_of_web for_session "s1")
          ≡ failed e)
        × ((get_session table json keys_of_web (5 * second) "s1" (
              apply_all table json keys_of_web meanwhile
                (set_session table json keys_of_web 0 "s1" alice (pos 10) empty_world).1)).0
            ≡ err e))
session_survives_example =
    session_survives table json table_laws web_config 0 (5 * second) "s1" "s1" alice (pos 10)
      empty_world meanwhile refl refl stored_fine elsewhere (omega arith) in_time

lock-IsExclusive_example :
    (obtain_refresh_lock table json keys_of_web (5 * second) "s1" (pos 15) (
      apply_all table json keys_of_web meanwhile
        (obtain_refresh_lock table json keys_of_web 0 "s1" (pos 10) empty_world).1)).0
    ≢ ok true
lock-IsExclusive_example =
    lock-IsExclusive table json table_laws web_config 0 (5 * second) "s1" (pos 10) (pos 15)
      empty_world meanwhile lock_free no_release (omega arith) in_time

used_first :
    (consume_once table json keys_of_web 0 "handoff:j2" (pos (10 * second)) empty_world).0 ≡ ok true
unfolding consume_once lookup table_nx
used_first = refl

not_recorded : All (λ o. (o.0 ≤ 5 * second) × ((t : ℤ) → o.1 ≢ records "handoff:j2" t)) meanwhile
not_recorded =
    ((omega arith, λ t e. cc), ((omega arith, λ t e. cc), ((omega arith, λ t e. cc), tt)))

consume_once-IsExclusive_example :
    (consume_once table json keys_of_web (5 * second) "handoff:j2" (pos second) (
      apply_all table json keys_of_web meanwhile
        (consume_once table json keys_of_web 0 "handoff:j2" (pos (10 * second)) empty_world).1)).0
    ≢ ok true
consume_once-IsExclusive_example =
    consume_once-IsExclusive table json table_laws web_config 0 (5 * second) "handoff:j2"
      (pos (10 * second)) (pos second) empty_world meanwhile used_first not_recorded (omega arith)
      (omega arith)

key_of-apart_example : (for_lock ≡ for_lock) × (alice.id ≡ alice.id)
key_of-apart_example = key_of-apart web_config for_lock for_lock "s1" "s1" refl

abbrev with_alice : World Table
with_alice = record { server = ("auth:session:s1", ("s1", 9000 * second)) ∷ []; metrics = [] }

alice_found :
    find_session table json keys_of_web (λ s. s) 1 (4000 * second) " u1" "a@example.com" with_alice
    ≡ some (ok (some alice))
unfolding find_session trim_space table_peek table_keys get_claim_string is_expired lookup
alice_found = refl

find_session-IsMatch_example :
    IsLiveMatch table json keys_of_web (λ s. s) (4000 * second) " u1" "a@example.com" alice
find_session-IsMatch_example =
    find_session-IsMatch table json keys_of_web (λ s. s) 1 (4000 * second) " u1" "a@example.com"
      with_alice alice alice_found

delete_sessions-apart_example :
    table.peek
      ((delete_sessions table json keys_of_web
          (λ s. s)
          1
          (4000 * second)
          "u1"
          "a@example.com"
          with_alice).1
        ).server
      (4001 * second)
      (key_of keys_of_web for_lock "s1")
    ≡ table.peek with_alice.server (4001 * second) (key_of keys_of_web for_lock "s1")
delete_sessions-apart_example =
    delete_sessions-apart table json table_laws web_config (λ s. s) 1 (4000 * second)
      (4001 * second) "u1" "a@example.com" (for_lock, "s1") with_alice (λ e. cc)
