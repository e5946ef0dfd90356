-- ===== src/Handoff/Laws.antt =====
-- What a verified and what a redeemed ticket guarantees: internal/auth/handoff/handoff.go.
use Prim.Native.String.{◌++◌}
use accessgate.Base.{
  ℕ, ◌+◌, ◌/◌, ◌≤◌, String, ◌≡◌, ◌≢◌, refl, ap, ◌∙◌, sym, Bool, true, false, Option, some, List, [],
  ◌∷◌, arith, if◌then◌else◌, ltb, All, eq_refl, Option-cases, inl, inr,
}
use accessgate.Base.Int.{pos, pos_part, ltb_ℤ}
use accessgate.Base.Text.{cut}
use accessgate.Crypto.{Crypto, CryptoLaws}
use accessgate.Crypto.Parts.{cut-append}
use accessgate.Cookie.{signed_sep}
use accessgate.Handoff.{
  Ticket, Issuer, TicketJson, Result, ok, err, ticket_expired, second, new_ticket, seal, issue,
  verify_parts, verify, once_ttl,
}
use accessgate.Handoff.Lifetime.{IsNear, record_outlasts}
use accessgate.Handoff.Once.{Times, OnceStore, OnceLaws, answer, consume_ticket, redeem, redeem_all}

abbrev pub ExpiredOr : ℕ → Ticket → Result Ticket
ExpiredOr now t = if ltb_ℤ t.expires_at (pos (now / second)) then err ticket_expired else ok t

ExpiredOr-ok :
    (now : ℕ) (t u : Ticket)
    → ExpiredOr now t ≡ ok u
    → (ltb_ℤ t.expires_at (pos (now / second)) ≡ false) × (t ≡ u)
ExpiredOr-ok now t u h = ground arith

module _ (c : Crypto) (json : TicketJson) where
  expires_at-new_ticket :
      (i : Issuer) (now : ℕ) (connector_id auth_id session_ref jti : String)
      → (new_ticket c json i now connector_id auth_id session_ref jti).expires_at
        ≡ pos ((now + pos_part i.ttl) / second)
  unfolding new_ticket
  expires_at-new_ticket i now connector_id auth_id session_ref jti = refl

  verify_parts_same :
      (i : Issuer) (now later : ℕ) (payload sig64 : String) (t : Ticket)
      → verify_parts c json i now payload sig64 ≡ ok t
      → verify_parts c json i later payload sig64 ≡ ExpiredOr later t
  unfolding verify_parts
  verify_parts_same i now later payload sig64 t h = ground arith

  verify-parts :
      (i : Issuer) (now : ℕ) (ticket : String) {payload sig64 : String}
      → cut b'.' ticket ≡ some (payload, sig64)
      → verify c json i now ticket ≡ verify_parts c json i now payload sig64
  unfolding verify
  verify-parts i now ticket parts = rw (parts, verify)

  verify_same :
      (i : Issuer) (now later : ℕ) (ticket : String) (t : Ticket)
      → verify c json i now ticket ≡ ok t
      → verify c json i later ticket ≡ ExpiredOr later t
  verify_same i now later ticket t h = elim (Option-cases (cut b'.' ticket)) [
    | inl whole ↦ absurd (unfold verify in cc (rw (whole, verify) at h))
    | inr ((payload, sig64), parts) ↦
        verify-parts i later ticket parts
        ∙ verify_parts_same i now later payload sig64 t (sym (verify-parts i now ticket parts) ∙ h)
  ]

  -- A ticket that verifies has not passed its last second.
  unexpired_of_verify :
      (i : Issuer) (now : ℕ) (ticket : String) (t : Ticket)
      → verify c json i now ticket ≡ ok t
      → ltb_ℤ t.expires_at (pos (now / second)) ≡ false
  unexpired_of_verify i now ticket t h = ground (arith, verify_same i now now ticket t h)

module _ (c : Crypto) (json : TicketJson) {S : Type 0} (o : OnceStore S) where
  abbrev replay_key : Ticket → String
  replay_key t = "handoff:" ++ t.jti

  abbrev used : Times → Ticket → S → Option Bool × S
  used at t s = o.consume at.consumed (replay_key t) (once_ttl at.measured t) s

  record IsFirstUse (at : Times) (r : Result Ticket) (s : S) (t : Ticket) : Type 0 where
    verified : r ≡ ok t
    first : (used at t s).0 ≡ some true
    after : (consume_ticket c json o at r s).1 ≡ (used at t s).1

  answer-ok :
      (first : Option Bool) (t u : Ticket)
      → answer c json o first t ≡ ok u
      → (first ≡ some true) × (t ≡ u)
  unfolding answer
  answer-ok first t u h = ground arith

  consume_ticket-IsFirstUse :
      (at : Times) (r : Result Ticket) (s : S) (t : Ticket)
      → (consume_ticket c json o at r s).0 ≡ ok t
      → IsFirstUse at r s t
  unfolding consume_ticket
  consume_ticket-IsFirstUse at (err e) s t h = absurd (cc)
  consume_ticket-IsFirstUse at (ok u) s t h =
      let (first, same) = answer-ok (used at u s).0 u t h in
      record { verified = ap ok same; first = rw (← same) first; after = rw (← same) }

  module _ (laws : OnceLaws o) where
    consume_ticket-live :
        (at : Times) (later : ℕ) (r : Result Ticket) (key : String) (s : S)
        → at.consumed ≤ later
        → o.live s later key ≡ true
        → o.live (consume_ticket c json o at r s).1 later key ≡ true
    unfolding consume_ticket
    consume_ticket-live at later (err e) key s order h = h
    consume_ticket-live at later (ok t) key s order h =
        laws.kept at.consumed later (replay_key t) key (once_ttl at.measured t) s order h

    redeem-live :
        (i : Issuer) (at : Times) (later : ℕ) (ticket key : String) (s : S)
        → at.consumed ≤ later
        → o.live s later key ≡ true
        → o.live (redeem c json o i at ticket s).1 later key ≡ true
    unfolding redeem
    redeem-live i at later ticket key s =
        consume_ticket-live at later (verify c json i at.verified ticket) key s

    redeem_all-live :
        (i : Issuer) (attempts : List (Times × String)) (later : ℕ) (key : String) (s : S)
        → All (λ a. a.0.consumed ≤ later) attempts
        → o.live s later key ≡ true
        → o.live (redeem_all c json o i attempts s) later key ≡ true
    unfolding redeem_all
    redeem_all-live i [] later key s times h = h
    redeem_all-live i ((at, ticket) ∷ more) later key s times h =
        redeem_all-live i more later key (redeem c json o i at ticket s).1 times.1
          (redeem-live i at later ticket key s times.0 h)

    -- Until the ticket expires, its replay record is live.
    redeem-recorded :
        (i : Issuer) (at : Times) (later : ℕ) (ticket : String) (s : S) (t : Ticket)
        → (redeem c json o i at ticket s).0 ≡ ok t
        → at.measured ≤ at.consumed
        → at.consumed ≤ later
        → ltb_ℤ t.expires_at (pos (later / second)) ≡ false
        → IsNear at.measured t
        → o.live (redeem c json o i at ticket s).1 later (replay_key t) ≡ true
    unfolding redeem
    redeem-recorded i at later ticket s t once inner order unexpired near =
        let spent = consume_ticket-IsFirstUse at (verify c json i at.verified ticket) s t once in
        let lasts = record_outlasts at.measured later t unexpired (omega arith) near in
        rw spent.after (
          laws.recorded at.consumed later (replay_key t) (once_ttl at.measured t) s spent.first
            order (omega arith))

    redeem-fresh :
        (i : Issuer) (at : Times) (ticket : String) (s : S) (t : Ticket)
        → (redeem c json o i at ticket s).0 ≡ ok t
        → (verify c json i at.verified ticket ≡ ok t)
          × (o.live s at.consumed (replay_key t) ≡ false)
    unfolding redeem
    redeem-fresh i at ticket s t once =
        let spent = consume_ticket-IsFirstUse at (verify c json i at.verified ticket) s t once in
        (
          spent.verified,
          laws.fresh at.consumed (replay_key t) (once_ttl at.measured t) s spent.first,
        )

    -- Over a one-time store that keeps its contract, a redeemed ticket that expires within 285 years
    -- is not redeemed again by an attempt that reaches the store no later than in the ticket's last
    -- second, whatever tickets are presented between the two attempts. The clock may move on between
    -- the reads of one attempt.
    pub redeem_once :
        (i : Issuer) (at later : Times) (ticket : String) (s : S) (t u : Ticket)
        (attempts : List (Times × String))
        → (redeem c json o i at ticket s).0 ≡ ok t
        → at.measured ≤ at.consumed
        → at.consumed ≤ later.consumed
        → All (λ a. a.0.consumed ≤ later.consumed) attempts
        → IsNear at.measured t
        → ltb_ℤ t.expires_at (pos (later.consumed / second)) ≡ false
        → (redeem c json o i later ticket
            (redeem_all c json o i attempts (redeem c json o i at ticket s).1)).0
          ≢ ok u
    redeem_once i at later ticket s t u attempts once inner order times near unexpired again =
        let (verified, _) = redeem-fresh i at ticket s t once in
        let s' = redeem_all c json o i attempts (redeem c json o i at ticket s).1 in
        let (verified', dead) = redeem-fresh i later ticket s' u again in
        let (_, same) =
          ExpiredOr-ok later.verified t u
            (sym (verify_same c json i at.verified later.verified ticket t verified) ∙ verified') in
        let alive =
          redeem_all-live i attempts later.consumed (replay_key t) (redeem c json o i at ticket s).1
            times
            (redeem-recorded i at later.consumed ticket s t once inner order unexpired near) in
        cc

module _ (c : Crypto) (json : TicketJson) (laws : CryptoLaws c) where
  cut-seal :
      (i : Issuer) (t : Ticket)
      → cut b'.' (seal c json i t)
        ≡ some (
          c.encode64 (json.marshal t),
          c.encode64 (c.hmac i.secret (c.encode64 (json.marshal t))),
        )
  unfolding seal
  cut-seal i t =
      cut-append b'.' signed_sep (c.encode64 (json.marshal t)) _ refl (laws.no_dot (json.marshal t))

  verify_parts-seal :
      (i : Issuer) (later : ℕ) (t : Ticket)
      → json.unmarshal (json.marshal t) ≡ some t
      → verify_parts c json i later
          (c.encode64 (json.marshal t))
          (c.encode64 (c.hmac i.secret (c.encode64 (json.marshal t))))
        ≡ ExpiredOr later t
  unfolding verify_parts
  verify_parts-seal i later t read_back =
      let payload = c.encode64 (json.marshal t) in
      ground (
        arith,
        laws.decode-encode (c.hmac i.secret payload),
        eq_refl (c.hmac i.secret payload),
        laws.decode-encode (json.marshal t),
      )

  verify-seal :
      (i : Issuer) (later : ℕ) (t : Ticket)
      → json.unmarshal (json.marshal t) ≡ some t
      → verify c json i later (seal c json i t) ≡ ExpiredOr later t
  verify-seal i later t read_back =
      verify-parts c json i later (seal c json i t) (cut-seal i t)
      ∙ verify_parts-seal i later t read_back

  -- When JSON reads back what it wrote, a ticket that was issued verifies, with all its fields, up to the last second of its life, and
  -- is refused as expired from then on.
  pub verify-issue :
      (i : Issuer) (now later : ℕ) (connector_id auth_id session_ref jti ticket : String)
      → json.unmarshal (json.marshal (new_ticket c json i now connector_id auth_id session_ref jti))
        ≡ some (new_ticket c json i now connector_id auth_id session_ref jti)
      → issue c json i now connector_id auth_id session_ref jti ≡ ok ticket
      → verify c json i later ticket ≡ (
          if ltb ((now + pos_part i.ttl) / second) (later / second)
          then err ticket_expired
          else ok (new_ticket c json i now connector_id auth_id session_ref jti))
  unfolding issue
  verify-issue i now later connector_id auth_id session_ref jti ticket read_back h = ground (
    arith,
    verify-seal i later (new_ticket c json i now connector_id auth_id session_ref jti) read_back,
    expires_at-new_ticket c json i now connector_id auth_id session_ref jti,
  )
