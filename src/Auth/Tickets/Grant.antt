-- ===== src/Auth/Tickets/Grant.antt =====
-- Which handoff tickets RedeemHandoff of internal/auth/service/service.go turns into a cookie.
use Prim.Native.String.{◌++◌}
use accessgate.Base.{
  String, ◌==◌, eq_refl, ◌≡◌, refl, Bool, true, false, ◌||◌, some, [], ◌∷◌, arith,
}
use accessgate.Base.Result.{Result, ok, err}
use accessgate.Crypto.{Crypto}
use accessgate.Handoff
use accessgate.Handoff.{Ticket, Issuer, TicketJson, verify}
use accessgate.Auth.Env.{History, once_consumed, ◌>>=◌}
use accessgate.Auth.Env.Keeps.{Keeps}
use accessgate.Auth.Service.{Service, Deps}
use accessgate.Auth.Tickets.{redeem_ticket, accept, hand_over, redeem_handoff}

-- The record of the ticket was made, for the first time, by the last use of the one-time store.
unfoldable pub used_first : String → History → Bool
used_first key [] = false
used_first key (once_consumed key' ttl (ok true) ∷ t) = key' == key
used_first key (once_consumed key' ttl _ ∷ t) = false
used_first key (_ ∷ t) = used_first key t

module _ (d : Deps) (crypto : Crypto) (json : TicketJson) (s : Service) (i : Issuer) where
  redeemed-IsFirst :
      (ticket : String) (t : History) (tk : Ticket)
      → (redeem_ticket d crypto json i ticket t).0 ≡ ok tk
      → used_first ("handoff:" ++ tk.jti) (redeem_ticket d crypto json i ticket t).1 ≡ true
  unfolding used_first redeem_ticket accept ◌>>=◌
  redeemed-IsFirst ticket t tk e = ground (arith, eq_refl ("handoff:" ++ tk.jti))

  verified :
      (ticket : String) (t : History) (tk : Ticket)
      → (redeem_ticket d crypto json i ticket t).0 ≡ ok tk
      → verify crypto json i (d.env.now_nanos t) ticket ≡ Handoff.ok tk
  unfolding redeem_ticket accept ◌>>=◌
  verified ticket t tk e = ground arith

  -- What a redemption that returns a cookie's value and a connector has seen.
  pub record IsGranted (connector_id ticket value connector : String) (t after : History)
      (tk : Ticket) : Type 0 where
    pub valid : verify crypto json i (d.env.now_nanos t) ticket ≡ Handoff.ok tk
    pub first : used_first ("handoff:" ++ tk.jti) after ≡ true
    pub cookie : d.cookie.encode tk.session_ref ≡ ok value
    pub home : tk.connector_id ≡ connector
    pub asked : (connector_id == "" || connector == connector_id) ≡ true

  handed :
      (connector_id value connector : String) (tk : Ticket) (u : History)
      → (hand_over d crypto json s connector_id tk u).0 ≡ ok (value, connector)
      → (d.cookie.encode tk.session_ref ≡ ok value)
        × (tk.connector_id ≡ connector)
        × ((connector_id == "" || connector == connector_id) ≡ true)
  unfolding hand_over ◌>>=◌
  handed connector_id value connector tk u e = ground arith

  hand_over-Keeps :
      (connector_id key : String) (tk : Ticket)
      → Keeps (λ t. used_first key t ≡ true) (hand_over d crypto json s connector_id tk)
  unfolding hand_over used_first ◌>>=◌
  hand_over-Keeps connector_id key tk = record { at = λ t h. ground arith }

  ended-IsGranted :
      (connector_id ticket value connector : String) (t : History) (r : Result Ticket)
      → (redeem_ticket d crypto json i ticket t).0 ≡ r
      → (redeem_handoff d crypto json s (some i) connector_id ticket t).0 ≡ ok (value, connector)
      → (tk : Ticket) × IsGranted connector_id ticket value connector t
          (redeem_handoff d crypto json s (some i) connector_id ticket t).1
          tk
  unfolding redeem_handoff used_first ◌>>=◌
  ended-IsGranted connector_id ticket value connector t (err x) e h =
      absurd (cc (rw (e, redeem_handoff, ◌>>=◌) at h))
  ended-IsGranted connector_id ticket value connector t (ok tk) e h =
      let u = (redeem_ticket d crypto json i ticket t).1 in
      let kept = hand_over-Keeps connector_id ("handoff:" ++ tk.jti) tk in
      let facts = handed connector_id value connector tk u (rw (e, redeem_handoff, ◌>>=◌) at h) in
      (
        tk,
        record {
          valid = verified ticket t tk e;
          first = rw (e, redeem_handoff, ◌>>=◌) (kept.at u (redeemed-IsFirst ticket t tk e));
          cookie = facts.0;
          home = facts.1;
          asked = facts.2;
        },
      )

  -- A handoff that returns a cookie's value did so for a ticket that verifies at the time of the
  -- call, whose record it was the first to make in the one-time store, for the connector that the
  -- ticket names and that the caller asked for, if it asked for one; the value is the signed
  -- cookie of the ticket's session. This holds whatever the environment answers.
  pub redeem_handoff-IsGranted :
      (connector_id ticket value connector : String) (t : History)
      → (redeem_handoff d crypto json s (some i) connector_id ticket t).0 ≡ ok (value, connector)
      → (tk : Ticket) × IsGranted connector_id ticket value connector t
          (redeem_handoff d crypto json s (some i) connector_id ticket t).1
          tk
  redeem_handoff-IsGranted connector_id ticket value connector t =
      ended-IsGranted connector_id ticket value connector t _ refl
