-- ===== src/Redis/Keeps.antt =====
-- What the Redis stores of internal/redis/redis.go keep: a session or a lock stands until it
-- expires, whatever else is stored meanwhile.
use accessgate.Base.{
  ℕ, ◌+◌, ◌≤◌, ◌<◌, String, ◌≡◌, ◌≢◌, ◌⊎◌, inl, inr, refl, ◌∙◌, true, false, Option, none, some,
  List, [], ◌∷◌, ◌==◌, arith, eq_iff, Bool-cases, All, ap,
}
use accessgate.Base.Int.{ℤ, pos_part}
use accessgate.Base.Result.{Result, ok, err}
use accessgate.Session.{Session}
use accessgate.Session.Layout.{KeyLayout}
use accessgate.Session.Apart.{Purpose, for_session, for_lock, key_of, key_of-apart}
use accessgate.Auth.Service.{ConnectorConfig}
use accessgate.Auth.Settings.Defaults.{connector_key_layout}
use accessgate.Redis.{
  Reply, found, nil, failed, Client, Json, World, seconds, write, erase, read_reply, get_session,
  set_session, delete_session, set_pkce, delete_pkce, obtain_refresh_lock, release_refresh_lock,
  lock_answer, set_revoked, record_replay, consume_once,
}
use accessgate.Redis.Laws.{
  ClientLaws, Op, sets_session, deletes_session, sets_pkce, deletes_pkce, obtains, releases,
  revokes, records, consumes, written, apply, apply_all,
}

module _ {S : Type 0} (c : Client S) (json : Json) (laws : ClientLaws c)
    (conn : ConnectorConfig) where
  abbrev pub layout : KeyLayout
  layout = connector_key_layout conn

  abbrev pub holds : World S → ℕ → String → Option String
  holds w now key = c.peek w.server now key

  write-apart :
      (name : String) (now later : ℕ) (key other : String) (encoded : Result String) (ttl : ℤ)
      (w : World S)
      → (key == other) ≡ false
      → holds (write c json layout name now key encoded ttl w).1 later other ≡ holds w later other
  unfolding write
  write-apart name now later key other (err e) ttl w h = refl
  write-apart name now later key other (ok v) ttl w h =
      ground (arith, laws.set_apart now later key v other ttl w.server)

  pub erase-apart :
      (name : String) (now later : ℕ) (key other : String) (w : World S)
      → (key == other) ≡ false
      → holds (erase c json layout name now key w).1 later other ≡ holds w later other
  unfolding erase
  erase-apart name now later key other w h =
      ground (arith, laws.del_apart now later key other w.server)

  obtain-apart :
      (now later : ℕ) (id other : String) (ttl : ℤ) (w : World S)
      → (key_of layout for_lock id == other) ≡ false
      → holds (obtain_refresh_lock c json layout now id ttl w).1 later other ≡ holds w later other
  unfolding obtain_refresh_lock lock_answer key_of
  obtain-apart now later id other ttl w h = ground (
    arith,
    laws.args_apart now later (key_of layout for_lock id) "1" other (seconds ttl) w.server,
  )

  pub apply_apart :
      (now later : ℕ) (op : Op) (other : String) (w : World S)
      → (key_of layout (written op).0 (written op).1 == other) ≡ false
      → holds (apply c json layout now op w) later other ≡ holds w later other
  unfolding apply key_of set_session delete_session set_pkce delete_pkce release_refresh_lock
      set_revoked record_replay consume_once
  apply_apart now later (sets_session id sess ttl) other w h =
      write-apart "session_set" now later _ other (json.marshal_session sess) (seconds ttl) w h
  apply_apart now later (deletes_session id) other w h =
      erase-apart "session_del" now later _ other w h
  apply_apart now later (sets_pkce state p ttl) other w h =
      write-apart "pkce_set" now later _ other (json.marshal_pkce p) (seconds ttl) w h
  apply_apart now later (deletes_pkce state) other w h =
      erase-apart "pkce_del" now later _ other w h
  apply_apart now later (obtains id ttl) other w h = obtain-apart now later id other ttl w h
  apply_apart now later (releases id) other w h =
      erase-apart "refresh_lock_release" now later _ other w h
  apply_apart now later (revokes id ttl) other w h =
      laws.set_apart now later _ "1" other ttl w.server h
  apply_apart now later (records key ttl) other w h =
      laws.set_apart now later _ "1" other ttl w.server h
  apply_apart now later (consumes key ttl) other w h =
      laws.nx_apart now later _ "1" other ttl w.server h

  -- Distinct uses have distinct keys.
  pub keys_differ :
      (u v : Purpose × String) → u ≢ v → (key_of layout u.0 u.1 == key_of layout v.0 v.1) ≡ false
  keys_differ u v other = elim (Bool-cases (key_of layout u.0 u.1 == key_of layout v.0 v.1)) [
    | inr e ↦ e
    | inl e ↦
        let (same, named) = key_of-apart conn u.0 v.0 u.1 v.1 ((eq_iff _ _).0 e) in
        let both : u ≡ v = λ i. (same i, named i) in absurd (other both)
  ]

  apply_all-apart :
      (spot : Purpose × String) (later : ℕ) (ops : List (ℕ × Op)) (w : World S)
      → All (λ o. written o.1 ≢ spot) ops
      → holds (apply_all c json layout ops w) later (key_of layout spot.0 spot.1)
        ≡ holds w later (key_of layout spot.0 spot.1)
  unfolding apply_all
  apply_all-apart spot later [] w h = refl
  apply_all-apart spot later ((now, op) ∷ ops) w h =
      apply_all-apart spot later ops (apply c json layout now op w) h.1
      ∙ apply_apart now later op (key_of layout spot.0 spot.1) w (keys_differ (written op) spot h.0)

  set_session-put :
      (now later : ℕ) (id : String) (sess : Session) (ttl : ℤ) (v : String) (w : World S)
      → json.marshal_session sess ≡ ok v
      → (set_session c json layout now id sess ttl w).0 ≡ none
      → now ≤ later
      → later < now + pos_part (seconds ttl)
      → holds (set_session c json layout now id sess ttl w).1 later (key_of layout for_session id)
        ≡ some v
  unfolding set_session write key_of
  set_session-put now later id sess ttl v w e h order inside =
      ground (arith, laws.set_put now later (key_of layout for_session id) v (seconds ttl) w.server)

  read-held :
      (r : Reply) (now : ℕ) (id v : String) (sess : Session) (w : World S)
      → c.get w.server now (key_of layout for_session id) ≡ r
      → holds w now (key_of layout for_session id) ≡ some v
      → json.unmarshal_session v ≡ ok sess
      → ((get_session c json layout now id w).0 ≡ ok (some sess))
        ⊎ ((e : String) × (c.get w.server now (key_of layout for_session id) ≡ failed e)
            × ((get_session c json layout now id w).0 ≡ err e))
  unfolding get_session read_reply key_of
  read-held nil now id v sess w e held read =
      absurd (ground (arith, laws.get_nil w.server now (key_of layout for_session id)))
  read-held (failed x) now id v sess w e held read = inr (x, e, ground arith)
  read-held (found u) now id v sess w e held read =
      inl (ground (arith, laws.get_found w.server now (key_of layout for_session id) u))

  -- A session that the store accepted is the one that GetSession answers with until its time to
  -- live is over, or the server's GET fails and GetSession gives that error: whatever is stored meanwhile under other keys, for a
  -- connector's key layout and a session that JSON reads back.
  pub session_survives :
      (now later : ℕ) (id v : String) (sess : Session) (ttl : ℤ) (w : World S) (ops : List (ℕ × Op))
      → json.marshal_session sess ≡ ok v
      → json.unmarshal_session v ≡ ok sess
      → (set_session c json layout now id sess ttl w).0 ≡ none
      → All (λ o. written o.1 ≢ (for_session, id)) ops
      → now ≤ later
      → later < now + pos_part (seconds ttl)
      → ((get_session c json layout later id
            (apply_all c json layout ops (set_session c json layout now id sess ttl w).1)).0
          ≡ ok (some sess))
        ⊎ ((e : String) × (c.get
                ((apply_all c json layout ops
                  (set_session c json layout now id sess ttl w).1).server)
                later
                (key_of layout for_session id)
              ≡ failed e)
            × ((get_session c json layout later id
                  (apply_all c json layout ops (set_session c json layout now id sess ttl w).1)).0
                ≡ err e))
  session_survives now later id v sess ttl w ops encoded decoded stored others order inside =
      let w' = (set_session c json layout now id sess ttl w).1 in
      read-held _ later id v sess (apply_all c json layout ops w') refl
        (apply_all-apart (for_session, id) later ops w' others
          ∙ set_session-put now later id sess ttl v w encoded stored order inside)
        decoded

  abbrev asked : ℕ → String → ℤ → World S → Reply × S
  asked now id ttl w = c.set_args_nx now (key_of layout for_lock id) "1" (seconds ttl) w.server

  answered_true :
      (r : Reply) (server : S) (w : World S)
      → (lock_answer c json layout r server w).0 ≡ ok true
      → (status : String) × (r ≡ found status)
  unfolding lock_answer
  answered_true (found status) server w h = (status, refl)
  answered_true nil server w h = absurd (cc)
  answered_true (failed e) server w h = absurd (cc)

  answered_server :
      (r : Reply) (server : S) (w : World S)
      → ((lock_answer c json layout r server w).1).server ≡ server
  unfolding lock_answer
  answered_server (found status) server w = refl
  answered_server nil server w = refl
  answered_server (failed e) server w = refl

  obtained-server :
      (now : ℕ) (id : String) (ttl : ℤ) (w : World S)
      → ((obtain_refresh_lock c json layout now id ttl w).1).server ≡ (asked now id ttl w).1
  unfolding obtain_refresh_lock key_of
  obtained-server now id ttl w = answered_server (asked now id ttl w).0 (asked now id ttl w).1 w

  obtained-first :
      (now : ℕ) (id : String) (ttl : ℤ) (w : World S)
      → (obtain_refresh_lock c json layout now id ttl w).0 ≡ ok true
      → (status : String) × ((asked now id ttl w).0 ≡ found status)
  unfolding obtain_refresh_lock key_of
  obtained-first now id ttl w h = answered_true (asked now id ttl w).0 (asked now id ttl w).1 w h

  lock_kept :
      (now later : ℕ) (op : Op) (id v : String) (w : World S)
      → now ≤ later
      → op ≢ releases id
      → holds w later (key_of layout for_lock id) ≡ some v
      → holds (apply c json layout now op w) later (key_of layout for_lock id) ≡ some v
  unfolding apply
  lock_kept now later (obtains other ttl) id v w order h held =
      ap (λ s. c.peek s later (key_of layout for_lock id)) (obtained-server now other ttl w)
      ∙ laws.args_kept now later (key_of layout for_lock other) "1" (key_of layout for_lock id) v
          (seconds ttl) w.server order held
  lock_kept now later (releases other) id v w order h held =
      apply_apart now later (releases other) (key_of layout for_lock id) w
        (keys_differ (for_lock, other) (for_lock, id) (λ e. h (ap (λ u. releases u.1) e)))
      ∙ held
  lock_kept now later op id v w order h held =
      apply_apart now later op (key_of layout for_lock id) w
        (keys_differ (written op) (for_lock, id) (λ e. cc))
      ∙ held

  locks_kept :
      (later : ℕ) (id v : String) (ops : List (ℕ × Op)) (w : World S)
      → All (λ o. (o.0 ≤ later) × (o.1 ≢ releases id)) ops
      → holds w later (key_of layout for_lock id) ≡ some v
      → holds (apply_all c json layout ops w) later (key_of layout for_lock id) ≡ some v
  unfolding apply_all
  locks_kept later id v [] w h held = held
  locks_kept later id v ((now, op) ∷ ops) w h held =
      locks_kept later id v ops (apply c json layout now op w) h.1
        (lock_kept now later op id v w (h.0).0 (h.0).1 held)

  -- A session's refresh lock is exclusive: after it was obtained, no second Obtain succeeds until
  -- its time to live is over or it is released, whatever else is stored meanwhile.
  pub lock-IsExclusive :
      (now later : ℕ) (id : String) (ttl ttl' : ℤ) (w : World S) (ops : List (ℕ × Op))
      → (obtain_refresh_lock c json layout now id ttl w).0 ≡ ok true
      → All (λ o. (o.0 ≤ later) × (o.1 ≢ releases id)) ops
      → now ≤ later
      → later < now + pos_part (seconds ttl)
      → (obtain_refresh_lock c json layout later id ttl'
          (apply_all c json layout ops (obtain_refresh_lock c json layout now id ttl w).1)).0
        ≢ ok true
  lock-IsExclusive now later id ttl ttl' w ops h quiet order inside again =
      let w' = (obtain_refresh_lock c json layout now id ttl w).1 in
      let (status, first) = obtained-first now id ttl w h in
      let held : holds w' later (key_of layout for_lock id) ≡ some "1" =
        ap (λ s. c.peek s later (key_of layout for_lock id)) (obtained-server now id ttl w)
        ∙ laws.args_put now later (key_of layout for_lock id) "1" status (seconds ttl) w.server
            first order inside in
      let kept = locks_kept later id "1" ops w' quiet held in
      let (status', second) = obtained-first later id ttl' (apply_all c json layout ops w') again in
      let free =
        laws.args_first later (key_of layout for_lock id) "1" status' (seconds ttl')
          ((apply_all c json layout ops w').server) second in
      cc
