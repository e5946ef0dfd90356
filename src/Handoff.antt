-- ===== src/Handoff.antt =====
-- One-time handoff tickets: internal/auth/handoff/handoff.go. Parameters: the crypto packages,
-- encoding/json on the payload, and the OnceStore. A point of time is a number of nanoseconds since
-- 1970, a duration a signed number of nanoseconds.
pub mod Once
pub mod Lifetime
pub mod Laws
mod Tests
use Prim.Native.String.{◌++◌}
use Prim.Native.String
use accessgate.Base.{
  ℕ, ◌+◌, ◌*◌, ◌/◌, String, ◌==◌, Option, none, some, Bool, true, false, ◌||◌, if◌then◌else◌,
}
use accessgate.Base.Int.{
  ℤ, pos, pos_part, neg_part, sub_ℕ, ◌+ℤ◌, ◌-ℤ◌, leb_ℤ, ltb_ℤ, negsuc, wrap64,
}
use accessgate.Base.Text.{cut}
use accessgate.Crypto.{Crypto}
use accessgate.Cookie.{signed_sep}

pub record Ticket : Type 0 where
  pub connector_id : String
  pub authoritative_id : String
  pub session_ref : String
  pub issued_at : ℤ
  pub expires_at : ℤ
  pub jti : String

pub data HandoffError : Type 0 where
  ref_and_jti_required malformed_ticket bad_signature_encoding invalid_signature : HandoffError
  bad_payload_encoding bad_payload ticket_expired : HandoffError
  store_not_configured replay_check_failed already_redeemed : HandoffError

pub data Result {ℓ} (A : Type ℓ) : Type ℓ where
  ok : A → Result A
  err : HandoffError → Result A

abbrev pub second : ℕ
second = 1_000_000_000

-- time.Unix(s, 0), as a point of time.
abbrev pub at_second : ℤ → ℤ
at_second s = pos (pos_part s * second) -ℤ pos (neg_part s * second)

abbrev pub default_ttl : ℤ
default_ttl = pos (120 * second)

pub record Issuer : Type 0 where
  pub secret : String
  pub ttl : ℤ

-- NewIssuer, without the store and the clock, which are arguments of the operations.
pub new_issuer : String → ℤ → Issuer
new_issuer secret ttl = record {
  secret = secret;
  ttl = if leb_ℤ ttl (pos 0) then default_ttl else ttl;
}

-- json.Marshal and json.Unmarshal at the type Ticket.
pub record TicketJson : Type 0 where
  pub marshal : Ticket → String
  pub unmarshal : String → Option Ticket

module _ (c : Crypto) (json : TicketJson) where
  -- The Unix second of a point of time that is not before 1970.
  unfoldable pub new_ticket : Issuer → ℕ → String → String → String → String → Ticket
  new_ticket i now connector_id auth_id session_ref jti = record {
    connector_id = connector_id;
    authoritative_id = auth_id;
    session_ref = session_ref;
    issued_at = pos (now / second);
    expires_at = pos ((now + pos_part i.ttl) / second);
    jti = jti;
  }

  unfoldable pub seal : Issuer → Ticket → String
  seal i t =
      let payload = c.encode64 (json.marshal t) in
      payload ++ String.◌∷◌ signed_sep (c.encode64 (c.hmac i.secret payload))

  unfoldable pub issue : Issuer → ℕ → String → String → String → String → Result String
  issue i now connector_id auth_id session_ref jti =
      if session_ref == "" || jti == ""
      then err ref_and_jti_required
      else ok (seal i (new_ticket i now connector_id auth_id session_ref jti))

  -- The checks of `verify` behind the split of the ticket.
  unfoldable pub verify_parts : Issuer → ℕ → String → String → Result Ticket
  verify_parts i now payload sig64 = elim (c.decode64 sig64) [
    | none ↦ err bad_signature_encoding
    | some sig ↦
        if sig == c.hmac i.secret payload
        then (elim (c.decode64 payload) [
          | none ↦ err bad_payload_encoding
          | some raw ↦ (elim (json.unmarshal raw) [
            | none ↦ err bad_payload
            | some t ↦ if ltb_ℤ t.expires_at (pos (now / second)) then err ticket_expired else ok t
          ])
        ])
        else err invalid_signature
  ]

  unfoldable pub verify : Issuer → ℕ → String → Result Ticket
  unfolding verify_parts
  verify i now ticket = elim (cut b'.' ticket) [
    | none ↦ err malformed_ticket
    | some (payload, sig64) ↦ verify_parts i now payload sig64
  ]

-- A difference of two points of time as a time.Duration: int64 nanoseconds, at its ends where it
-- does not fit.
abbrev pub max_duration : ℕ
max_duration = 9_223_372_036_854_775_807

unfoldable pub saturate : ℤ → ℤ
saturate d =
    if ltb_ℤ (pos max_duration) d
    then pos max_duration
    else if ltb_ℤ d (negsuc max_duration)
    then negsuc max_duration
    else d

-- The time-to-live of the replay record: until the ticket's expiry and one second more, on int64.
pub ttl_until : ℕ → ℤ → ℤ
unfolding saturate
ttl_until now expires_at =
    let ttl = wrap64 (saturate (at_second expires_at -ℤ pos now) +ℤ pos second) in
    if leb_ℤ ttl (pos 0) then pos second else ttl

unfoldable pub once_ttl : ℕ → Ticket → ℤ
unfolding ttl_until
once_ttl now t = ttl_until now t.expires_at
