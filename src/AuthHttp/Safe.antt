-- ===== src/AuthHttp/Safe.antt =====
-- What the responses of internal/auth/httpserver/server.go guarantee: when they set a session
-- cookie, how it is written, and when they show a user.
use accessgate.Base.{
  ap, ◌≤◌, String, ◌==◌, ◌≡◌, ◌≢◌, refl, true, Option, none, some, [], ◌∷◌, arith, Bool-cases, inl,
  inr,
}
use accessgate.Base.Int.{ℤ}
use accessgate.Base.Text.{has_prefix}
use accessgate.Base.Result.{Result, ok, err}
use accessgate.Crypto.{Crypto}
use accessgate.Handoff.{Ticket, TicketJson, Issuer}
use accessgate.Session.{Session}
use accessgate.Auth.Env.{History, ◌>>=◌}
use accessgate.Auth.Service.{Connector, Deps, conn}
use accessgate.Auth.Login.Order.{IsInOrder, login_end-IsInOrder}
use accessgate.Auth.Resolve.{shown_session}
use accessgate.Auth.Tickets.{redeem_handoff}
use accessgate.Auth.Tickets.Grant.{IsGranted, redeem_handoff-IsGranted}
use accessgate.AuthHttp.{
  Request, Response, user, Server, connector_cookie, cookie_opts_for_name, session_cookie,
  cookie_header, status_for,
}
use accessgate.AuthHttp.Handlers.{
  callback_request, handle_callback, me_reply, handle_me, redeem_reply, handle_handoff_redeem,
}

-- An error is never answered as a success.
status_for_error : (e : String) → 400 ≤ status_for e
unfolding status_for
status_for_error e = ground arith

module _ (d : Deps) (srv : Server) where
  -- GET or POST /callback stores a session only at the end of a login whose calls came in order: the
  -- PKCE state of the request read and deleted, its code exchanged with that state's verifier, and
  -- the ID token validated with its nonce. This holds for a known connector and a history in order.
  pub handle_callback-IsInOrder :
      (c : Connector) (r : Request) (t : History)
      → conn srv.svc r.connector ≡ ok c
      → IsInOrder d c (callback_request d srv r) t
      → IsInOrder d c (callback_request d srv r) (handle_callback d srv r t).1
  unfolding handle_callback callback_request ◌>>=◌
  handle_callback-IsInOrder c r t e h =
      login_end-IsInOrder d c (callback_request d srv r) srv.svc t e h

  shown_only :
      (got : Result (Option Session)) (resp : Response)
      → me_reply d srv got ≡ resp
      → resp.status ≡ 200
      → (sess : Session) × (got ≡ ok (some sess)) × (resp.body ≡ user sess)
  unfolding me_reply
  shown_only (ok (some sess)) resp h fine = (sess, refl, ground arith)
  shown_only (ok none) resp h fine = absurd (ground arith)
  shown_only (err e) resp h fine = absurd (ground (arith, status_for_error e))

  -- GET /me answers with 200 only if the request's cookie leads to a session in the connector's
  -- store, and then shows this session's user.
  pub handle_me-shows :
      (r : Request) (t : History) (resp : Response)
      → (handle_me d srv r t).0 ≡ ok resp
      → resp.status ≡ 200
      → (sess : Session) × ((shown_session d srv.svc
            (r.cookie (connector_cookie srv r.connector).0)
            r.connector
            t).0
          ≡ ok (some sess))
        × (resp.body ≡ user sess)
  unfolding handle_me ◌>>=◌
  handle_me-shows r t resp h fine = shown_only _ resp (ground arith) fine

  hardened :
      (name : String) (age : ℤ)
      → has_prefix name "__Host-" ≡ true
      → cookie_opts_for_name srv name age ≡ record {
        path = "/";
        domain = "";
        max_age = age;
        secure = true;
        http_only = true;
        same_site = (cookie_opts_for_name srv name age).same_site;
      }
  unfolding cookie_opts_for_name
  hardened name age h = ground arith

  -- A session cookie whose name begins with "__Host-" is written for the whole host alone: without
  -- a domain, with the path "/", HttpOnly and Secure, whatever the configuration says.
  pub cookie_header_hardened :
      (connector value : String)
      → has_prefix (connector_cookie srv connector).0 "__Host-" ≡ true
      → cookie_header d.strconv srv connector value
        ≡ session_cookie d.strconv (connector_cookie srv connector).0 value (record {
          path = "/";
          domain = "";
          max_age = (connector_cookie srv connector).1;
          secure = true;
          http_only = true;
          same_site =
              (cookie_opts_for_name srv
                (connector_cookie srv connector).0
                (connector_cookie srv connector).1).same_site;
        })
  unfolding cookie_header cookie_opts_for_name
  cookie_header_hardened connector value h =
      let (name, age) = connector_cookie srv connector in
      ap (session_cookie d.strconv name value) (hardened name age h)

module _ (d : Deps) (crypto : Crypto) (json : TicketJson) (srv : Server) (i : Issuer) (r : Request)
    (t : History) where
  -- What a redeeming response has set.
  pub record IsHandedOver (resp : Response) (value connector : String) (tk : Ticket) : Type 0 where
    pub cookie : resp.set_cookie ≡ cookie_header d.strconv srv connector value ∷ []
    pub granted :
        IsGranted d crypto json srv.svc i r.connector
          (r.query "ticket")
          value
          connector
          t
          (redeem_handoff d crypto json srv.svc (some i) r.connector (r.query "ticket") t).1
          tk

  handed_over :
      (got : Result (String × String)) (resp : Response)
      → (redeem_handoff d crypto json srv.svc (some i) r.connector (r.query "ticket") t).0 ≡ got
      → redeem_reply d crypto json srv r got ≡ resp
      → resp.set_cookie ≢ []
      → (value : String) × (connector : String) × (tk : Ticket) × IsHandedOver resp value connector
          tk
  unfolding redeem_reply
  handed_over (err e) resp h reply set = absurd (set (ground arith))
  handed_over (ok (value, connector)) resp h reply set =
      let (tk, granted) =
        redeem_handoff-IsGranted d crypto json srv.svc i r.connector (r.query "ticket") value
          connector t h in
      (value, connector, tk, record { cookie = ground arith; granted = granted })

  -- GET /handoff/redeem sets a cookie only for a ticket that verifies, is used for the first time
  -- and names the connector: the cookie is that connector's session cookie.
  pub handle_handoff_redeem-IsHandedOver :
      (resp : Response)
      → (handle_handoff_redeem d crypto json srv (some i) r t).0 ≡ ok resp
      → resp.set_cookie ≢ []
      → (value : String) × (connector : String) × (tk : Ticket) × IsHandedOver resp value connector
          tk
  unfolding handle_handoff_redeem ◌>>=◌
  handle_handoff_redeem-IsHandedOver resp h set = elim (Bool-cases (r.query "ticket" == "")) [
    | inl e ↦ absurd (set (ground arith))
    | inr e ↦ handed_over _ resp refl (ground arith) set
  ]
