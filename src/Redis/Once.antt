-- ===== src/Redis/Once.antt =====
-- ConsumeOnce of internal/redis/redis.go as the one-time store of internal/auth/handoff/handoff.go.
use accessgate.Base.{
  ℕ, ◌+◌, ◌≤◌, ◌<◌, ◌≢◌, ◌∙◌, ap, List, [], ◌∷◌, All, String, ◌≡◌, Bool, true, Option, none, some,
  arith, is_some, Option-cases, inl, inr,
}
use accessgate.Base.Int.{ℤ, pos_part}
use accessgate.Base.Result.{Result, ok, err}
use accessgate.Session.Layout.{KeyLayout, replay_key}
use accessgate.Handoff.Once.{OnceStore, OnceLaws}
use accessgate.Redis.{Client, Json, World, consume_once}
use accessgate.Session.Apart.{for_replay, key_of}
use accessgate.Auth.Service.{ConnectorConfig}
use accessgate.Redis.Laws.{ClientLaws, Op, records, consumes, written, apply, apply_all}
use accessgate.Redis.Keeps.{layout, holds, apply_apart, keys_differ}

abbrev answer_of : Result Bool → Option Bool
answer_of (ok first) = some first
answer_of (err e) = none

module _ {S : Type 0} (c : Client S) (json : Json) (k : KeyLayout) where
  abbrev pub once_store : OnceStore (World S)
  once_store = record {
    consume = λ now key ttl w. let r = consume_once c json k now key ttl w in (answer_of r.0, r.1);
    live = λ w now key. is_some (c.peek w.server now (replay_key k key));
  }

  answered_first : (r : Result Bool) → answer_of r ≡ some true → r ≡ ok true
  answered_first (ok b) h = ground arith
  answered_first (err e) h = absurd (ground arith)

  kept-live :
      (laws : ClientLaws c) (now later : ℕ) (key other : String) (ttl : ℤ) (w : World S)
      → now ≤ later
      → is_some (c.peek w.server later (replay_key k other)) ≡ true
      → is_some (c.peek ((consume_once c json k now key ttl w).1).server later (replay_key k other))
        ≡ true
  unfolding consume_once
  kept-live laws now later key other ttl w order h =
      elim (Option-cases (c.peek w.server later (replay_key k other))) [
        | inl e ↦ absurd (ground arith)
        | inr (v, e) ↦ ground (
          arith,
          laws.nx_kept now later (replay_key k key) "1" (replay_key k other) v ttl w.server,
        )
      ]

  -- The Redis store keeps the contract that redemption relies on: a first use finds no live record
  -- and leaves one for its time to live, and no use removes a live record.
  pub once_store-OnceLaws : ClientLaws c → OnceLaws once_store
  unfolding consume_once
  once_store-OnceLaws laws = record {
    fresh = λ now key ttl w h.
        ground (arith, answered_first _ h, laws.nx_first now (replay_key k key) "1" ttl w.server);
    recorded = λ now later key ttl w h order inside.
        ground
          (arith, answered_first _ h, laws.nx_put now later (replay_key k key) "1" ttl w.server);
    kept = λ now later key other ttl w order h. kept-live laws now later key other ttl w order h;
  }

module _ {S : Type 0} (c : Client S) (json : Json) (laws : ClientLaws c)
    (conn : ConnectorConfig) where
  abbrev replay_layout : KeyLayout
  replay_layout = layout c json laws conn

  use_kept :
      (now later : ℕ) (op : Op) (key v : String) (w : World S)
      → now ≤ later
      → ((ttl : ℤ) → op ≢ records key ttl)
      → holds c json laws conn w later (key_of replay_layout for_replay key) ≡ some v
      → holds c json laws conn
          (apply c json replay_layout now op w)
          later
          (key_of replay_layout for_replay key)
        ≡ some v
  unfolding apply consume_once key_of
  use_kept now later (consumes other ttl) key v w order h held =
      laws.nx_kept now later (replay_key replay_layout other) "1" (replay_key replay_layout key) v
        ttl w.server order held
  use_kept now later (records other ttl) key v w order h held =
      apply_apart c json laws conn now later (records other ttl)
        (key_of replay_layout for_replay key) w
        (keys_differ c json laws conn (for_replay, other) (for_replay, key)
          (λ e. h ttl (ap (λ u. records u.1 ttl) e)))
      ∙ held
  use_kept now later op key v w order h held =
      apply_apart c json laws conn now later op (key_of replay_layout for_replay key) w
        (keys_differ c json laws conn (written op) (for_replay, key) (λ e. cc))
      ∙ held

  uses_kept :
      (later : ℕ) (key v : String) (ops : List (ℕ × Op)) (w : World S)
      → All (λ o. (o.0 ≤ later) × ((ttl : ℤ) → o.1 ≢ records key ttl)) ops
      → holds c json laws conn w later (key_of replay_layout for_replay key) ≡ some v
      → holds c json laws conn
          (apply_all c json replay_layout ops w)
          later
          (key_of replay_layout for_replay key)
        ≡ some v
  unfolding apply_all
  uses_kept later key v [] w h held = held
  uses_kept later key v ((now, op) ∷ ops) w h held =
      uses_kept later key v ops (apply c json replay_layout now op w) h.1
        (use_kept now later op key v w (h.0).0 (h.0).1 held)

  -- A key that ConsumeOnce has granted is not granted again until its time to live is over,
  -- whatever else is stored meanwhile for the connector, also by other uses of ConsumeOnce on any
  -- key; only RecordReplay of the same key, which sets another time to live, is left out.
  pub consume_once-IsExclusive :
      (now later : ℕ) (key : String) (ttl ttl' : ℤ) (w : World S) (ops : List (ℕ × Op))
      → (consume_once c json replay_layout now key ttl w).0 ≡ ok true
      → All (λ o. (o.0 ≤ later) × ((t : ℤ) → o.1 ≢ records key t)) ops
      → now ≤ later
      → later < now + pos_part ttl
      → (consume_once c json replay_layout later key ttl' (
          apply_all c json replay_layout ops (consume_once c json replay_layout now key ttl w).1)).0
        ≢ ok true
  unfolding consume_once key_of
  consume_once-IsExclusive now later key ttl ttl' w ops h quiet order inside again =
      let w' = (consume_once c json replay_layout now key ttl w).1 in
      let spot = replay_key replay_layout key in
      let put = laws.nx_put now later spot "1" ttl w.server h order inside in
      let kept = uses_kept later key "1" ops w' quiet put in
      let free =
        laws.nx_first later spot "1" ttl' (apply_all c json replay_layout ops w').server again in
      cc
