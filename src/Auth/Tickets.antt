-- ===== src/Auth/Tickets.antt =====
-- EnableHandoff, IssueHandoff and RedeemHandoff of internal/auth/service/service.go, over the
-- tickets of Handoff.antt; the one-time store is the environment's.
-- The clock is read for every ticket, also for one that fails before its expiry is looked at.
pub mod Grant
use Prim.Native.String.{◌++◌}
use accessgate.Base.{
  ℕ, String, ◌==◌, Bool, true, false, not, ◌&&◌, Option, none, some, if◌then◌else◌,
}
use accessgate.Base.Int.{ℤ, wrap64}
use accessgate.Base.Result.{Result, ok, err}
use accessgate.Claims.{get_claim_string}
use accessgate.Session.{Session}
use accessgate.Crypto.{Crypto}
use accessgate.Handoff
use accessgate.Handoff.{
  Ticket, Issuer, TicketJson, HandoffError, ref_and_jti_required, malformed_ticket,
  bad_signature_encoding, invalid_signature, bad_payload_encoding, bad_payload, ticket_expired,
  store_not_configured, replay_check_failed, already_redeemed, at_second, new_issuer, issue, verify,
  once_ttl,
}
use accessgate.Auth.Env.{
  emit, handoff_issued, handoff_redeemed, M, ◌>>=◌, ◌>>◌, pure, raise, lift, attempt, finally,
  wrap_error, get_session, find_session, read_random, read_nanos, once,
}
use accessgate.Auth.Service.{Service, Connector, Deps, conn, quoted}
use accessgate.Auth.Refresh.{require_session}

-- The texts of the errors, without the errors that they wrap.
abbrev pub message_of : HandoffError → String
message_of ref_and_jti_required = "handoff: session ref and jti required"
message_of malformed_ticket = "handoff: malformed ticket"
message_of bad_signature_encoding = "handoff: bad signature encoding"
message_of invalid_signature = "handoff: invalid signature"
message_of bad_payload_encoding = "handoff: bad payload encoding"
message_of bad_payload = "handoff: bad payload"
message_of ticket_expired = "handoff: ticket expired"
message_of store_not_configured = "handoff: one-time store not configured"
message_of replay_check_failed = "handoff: replay check failed"
message_of already_redeemed = "handoff: ticket already redeemed"

abbrev pub with_message : {A : Type 0} → Handoff.Result A → Result A
with_message (Handoff.ok a) = ok a
with_message (Handoff.err e) = err (message_of e)

abbrev pub succeeded : {A : Type 0} → Result A → Bool
succeeded (ok a) = true
succeeded (err e) = false

-- The label of the redemption's metric.
abbrev pub redeem_label : String → Result (String × String) → String
redeem_label connector_id (ok (value, connector)) =
    if connector == "" then connector_id else connector
redeem_label connector_id (err e) = connector_id

-- EnableHandoff; the product with time.Second is on int64.
pub enable_handoff : Service → ℤ → Issuer
enable_handoff s ttl_seconds =
    new_issuer s.cfg.cookie_signing_secret (wrap64 (at_second ttl_seconds))

module _ (d : Deps) (crypto : Crypto) (json : TicketJson) where
  -- The session that the connector's finder has for a subject.
  unfoldable pub locate : Connector → String → String → M Session
  locate c subject email = elim c.finder [
    | none ↦ raise ("handoff: connector " ++ (quoted c.cfg.id ++ " has no session finder"))
    | some finder ↦ do
      found ←
          wrap_error "handoff: session lookup failed: " (find_session d.env finder subject email)
      elim found [ none ↦ raise "handoff: session not found" | some sess ↦ pure sess ]
  ]

  unfoldable pub issue_ticket : Issuer → Connector → Session → M String
  issue_ticket i c sess = do
    jti ← read_random d.env 32
    now ← read_nanos d.env
    let auth_id = get_claim_string sess.claims "sub"
    let ticket = with_message (issue crypto json i now c.cfg.id auth_id sess.id jti)
    emit (handoff_issued c.cfg.id (succeeded ticket))
    lift ticket

  unfoldable pub issue_handoff : Service → Option Issuer → String → String → String → M String
  issue_handoff s none connector_id subject email = raise "handoff not enabled"
  issue_handoff s (some i) connector_id subject email = do
    c ← lift (conn s connector_id)
    sess ← locate c subject email
    issue_ticket i c sess

  -- What Redeem makes of the store's answer.
  unfoldable pub accept : Ticket → Result Bool → M Ticket
  accept t (err e) = raise (message_of replay_check_failed)
  accept t (ok false) = raise (message_of already_redeemed)
  accept t (ok true) = pure t

  unfoldable pub redeem_ticket : Issuer → String → M Ticket
  redeem_ticket i ticket = do
    now ← read_nanos d.env
    t ← lift (with_message (verify crypto json i now ticket))
    later ← read_nanos d.env
    got ← attempt (once d.env ("handoff:" ++ t.jti) (once_ttl later t))
    accept t got

  -- RedeemHandoff, once the ticket is redeemed.
  unfoldable pub hand_over : Service → String → Ticket → M (String × String)
  hand_over s connector_id t =
      if not (connector_id == "") && not (t.connector_id == connector_id)
      then raise "handoff: connector mismatch"
      else do
        c ← lift (conn s t.connector_id)
        got ← attempt (get_session d.env c.sessions t.session_ref)
        elim got [
          | err e ↦ raise "handoff: session not found"
          | ok found ↦ (elim found [
            | none ↦ raise "handoff: session not found"
            | some sess ↦ do
              value ← lift (d.cookie.encode t.session_ref)
              pure (value, t.connector_id)
          ])
        ]

  unfoldable pub redeem_handoff : Service → Option Issuer → String → String → M (String × String)
  redeem_handoff s none connector_id ticket = raise "handoff not enabled"
  redeem_handoff s (some i) connector_id ticket =
      finally (λ r. emit (handoff_redeemed (redeem_label connector_id r) (succeeded r)))
        (do t ← redeem_ticket i ticket; hand_over s connector_id t)
