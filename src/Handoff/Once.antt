-- ===== src/Handoff/Once.antt =====
-- The OnceStore of internal/auth/handoff/handoff.go, as a parameter with its documented contract
-- (a Redis SETNX with a time-to-live), and redemption over it.
use Prim.Native.String.{◌++◌}
use accessgate.Base.{
  ℕ, ◌≤◌, ◌<◌, ◌+◌, String, ◌≡◌, Bool, true, false, Option, none, some, List, [], ◌∷◌,
}
use accessgate.Base.Int.{ℤ, pos_part}
use accessgate.Crypto.{Crypto}
use accessgate.Handoff.{
  Ticket, Issuer, TicketJson, Result, ok, err, store_not_configured, replay_check_failed,
  already_redeemed, verify, once_ttl,
}

-- `consume now key ttl` is ConsumeOnce at the time `now`; `none` is an error of the store.
pub record OnceStore (S : Type 0) : Type 0 where
  pub consume : ℕ → String → ℤ → S → Option Bool × S
  pub live : S → ℕ → String → Bool

-- The documented behaviour: a first use finds no live record and leaves one for its
-- time-to-live; no use removes a live record.
pub record OnceLaws {S : Type 0} (o : OnceStore S) : Type 0 where
  pub fresh :
      (now : ℕ) (key : String) (ttl : ℤ) (s : S)
      → (o.consume now key ttl s).0 ≡ some true
      → o.live s now key ≡ false
  pub recorded :
      (now later : ℕ) (key : String) (ttl : ℤ) (s : S)
      → (o.consume now key ttl s).0 ≡ some true
      → now ≤ later
      → later < now + pos_part ttl
      → o.live (o.consume now key ttl s).1 later key ≡ true
  pub kept :
      (now later : ℕ) (key other : String) (ttl : ℤ) (s : S)
      → now ≤ later
      → o.live s later other ≡ true
      → o.live (o.consume now key ttl s).1 later other ≡ true

-- The times of one Redeem: its clock is read by verify and again by time.Until, and the store has
-- its own time when the call reaches it.
pub record Times : Type 0 where
  pub verified : ℕ
  pub measured : ℕ
  pub consumed : ℕ

module _ (c : Crypto) (json : TicketJson) {S : Type 0} (o : OnceStore S) where
  -- What Redeem makes of the store's answer.
  unfoldable pub answer : Option Bool → Ticket → Result Ticket
  answer none t = err replay_check_failed
  answer (some true) t = ok t
  answer (some false) t = err already_redeemed

  unfoldable pub consume_ticket : Times → Result Ticket → S → Result Ticket × S
  unfolding answer
  consume_ticket at (err e) s = (err e, s)
  consume_ticket at (ok t) s =
      let (first, s') = o.consume at.consumed ("handoff:" ++ t.jti) (once_ttl at.measured t) s in
      (answer first t, s')

  unfoldable pub redeem : Issuer → Times → String → S → Result Ticket × S
  unfolding consume_ticket
  redeem i at ticket s = consume_ticket at (verify c json i at.verified ticket) s

  -- A run of redemptions, each with its times, over the shared store.
  unfoldable pub redeem_all : Issuer → List (Times × String) → S → S
  unfolding redeem
  redeem_all i [] s = s
  redeem_all i ((at, ticket) ∷ more) s = redeem_all i more (redeem i at ticket s).1

-- Redeem of an Issuer without a store: a ticket that verifies is refused all the same.
pub redeem_unconfigured : Crypto → TicketJson → Issuer → ℕ → String → Result Ticket
redeem_unconfigured c json i now ticket = elim (verify c json i now ticket) [
  | err e ↦ err e
  | ok t ↦ err store_not_configured
]
