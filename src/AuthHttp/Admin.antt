-- ===== src/AuthHttp/Admin.antt =====
-- The handlers behind the admin secret, of internal/auth/httpserver/server.go.
use Prim.Native.String.{◌++◌}
use accessgate.Base.{
  ℕ, String, ◌==◌, Bool, false, not, ◌&&◌, ◌||◌, Option, none, some, [], if◌then◌else◌, is_some,
  ◌≡◌, ◌≢◌, refl, arith, eq_iff,
}
use accessgate.Base.Text.{trim_slash}
use accessgate.Base.Dict.{Dict, insert}
use accessgate.Base.Result.{Result, ok, err}
use accessgate.Crypto.{Crypto}
use accessgate.Handoff.{TicketJson, Issuer}
use accessgate.Session.{Session}
use accessgate.Auth.Env.{M, History, ◌>>=◌, pure, attempt}
use accessgate.Auth.Service.{Deps}
use accessgate.Auth.Resolve.{ensure_fresh_session_by_id, attach_tenant_context}
use accessgate.Auth.Tickets.{issue_handoff}
use accessgate.AuthHttp.{
  Request, Response, no_body, plain, json_error, ticket, revoked, delegated, summary, Lookup,
  IssueBody, PatchBody, DelegatedBody, Server, Pinger, replied, failed_with,
}
use accessgate.AuthHttp.Handlers.{unauthorized}

-- subtle.ConstantTimeCompare
unfoldable pub has_secret : Server → Request → Bool
has_secret srv r = r.header "X-Admin-Secret" == srv.cfg.admin_secret

abbrev pub forbidden : Response
forbidden = replied 403 (json_error "forbidden")

abbrev is_missing : Lookup → Bool
is_missing l = l.subject == "" || l.email == ""

abbrev pub incomplete : Response
incomplete = replied 400 (plain "lookup.subject and lookup.email required")

-- net/url's PathEscape and Values.Encode.
pub record UrlCodec : Type 0 where
  pub path_escape : String → String
  pub encode : Dict String → String

unfoldable status_text : Result (Unit {0}) → String
status_text (ok done) = "ok"
status_text (err e) = "error"

module _ (srv : Server) where
  unfoldable pub session_store_status : M String
  unfolding status_text
  session_store_status = elim srv.ping [
    | none ↦ pure "unknown"
    | some p ↦ do answer ← attempt p.ping; pure (status_text answer)
  ]

  unfoldable pub handle_admin : Request → M Response
  unfolding has_secret session_store_status
  handle_admin r =
      if not (has_secret srv r)
      then pure (replied 403 no_body)
      else do status ← session_store_status; pure (replied 200 (summary srv.cfg status))

  unfoldable revoke_reply : Result ℕ → Response
  revoke_reply (ok n) = replied 200 (revoked n)
  revoke_reply (err e) = replied 500 (plain "session delete failed")

  unfoldable revoke_body : (String → String → M ℕ) → Option Lookup → M Response
  unfolding revoke_reply
  revoke_body delete none = pure (replied 400 (plain "invalid json"))
  revoke_body delete (some l) =
      if is_missing l
      then pure incomplete
      else do deleted ← attempt (delete l.subject l.email); pure (revoke_reply deleted)

  unfoldable revoke_with : Option Pinger → Request → M Response
  unfolding revoke_body
  revoke_with none r = pure (replied 501 (plain "not available"))
  revoke_with (some p) r = elim p.delete [
    | none ↦ pure (replied 501 (plain "not available"))
    | some delete ↦ revoke_body delete r.lookup_body
  ]

  unfoldable pub handle_revoke_session : Request → M Response
  unfolding has_secret revoke_with
  handle_revoke_session r =
      if not (has_secret srv r) then pure forbidden else revoke_with srv.ping r

module _ (d : Deps) (srv : Server) where
  unfoldable patch_reply : Result (Unit {0}) → Response
  patch_reply (ok done) = replied 200 no_body
  patch_reply (err e) = failed_with e

  unfoldable patch_body : Option PatchBody → M Response
  unfolding patch_reply
  patch_body none = pure (replied 400 (plain "invalid json"))
  patch_body (some b) =
      if b.session_id == "" || not (is_some b.tenant_context)
      then pure (replied 400 (plain "session_id and tenant_context required"))
      else do
        patched ← attempt (attach_tenant_context d srv.svc b.session_id b.tenant_context)
        pure (patch_reply patched)

  unfoldable pub handle_patch_session : Request → M Response
  unfolding has_secret patch_body
  handle_patch_session r =
      if not (has_secret srv r)
      then pure forbidden
      else if not (r.method == "PATCH") && not (r.method == "POST")
      then pure (replied 405 no_body)
      else patch_body r.patch_body

  unfoldable fresh_reply : Result (Session × Bool) → Response
  fresh_reply (ok (sess, refreshed)) = replied 200 (delegated sess)
  fresh_reply (err e) = unauthorized

  -- A session with an id is made fresh before its tokens are given out.
  unfoldable delegate : Result (Option Session) → M Response
  unfolding fresh_reply
  delegate (err e) = pure (replied 500 (plain "session lookup failed"))
  delegate (ok none) = pure (replied 404 (json_error "no_active_delegated_token"))
  delegate (ok (some sess)) =
      if sess.access_token == ""
      then pure (replied 404 (json_error "no_active_delegated_token"))
      else if sess.id == ""
      then pure (replied 200 (delegated sess))
      else do
        fresh ← attempt (ensure_fresh_session_by_id d srv.svc sess.id)
        pure (fresh_reply fresh)

  unfoldable delegate_body :
      (String → String → M (Option Session)) → Option DelegatedBody → M Response
  unfolding delegate
  delegate_body find none = pure (replied 400 (plain "invalid json"))
  delegate_body find (some b) =
      if is_missing b.lookup
      then pure incomplete
      else if not (b.token_use == "") && not (b.token_use == "peoplespace_user_api")
      then pure (replied 400 (plain "unsupported token_use"))
      else do found ← attempt (find b.lookup.subject b.lookup.email); delegate found

  unfoldable delegate_with : Option Pinger → Request → M Response
  unfolding delegate_body
  delegate_with none r = pure (replied 501 (plain "not available"))
  delegate_with (some p) r = elim p.find [
    | none ↦ pure (replied 501 (plain "not available"))
    | some find ↦ delegate_body find r.delegated_body
  ]

  unfoldable pub handle_token_handoff_user : Request → M Response
  unfolding has_secret delegate_with
  handle_token_handoff_user r =
      if not (has_secret srv r) then pure forbidden else delegate_with srv.ping r

module _ (d : Deps) (crypto : Crypto) (json : TicketJson) (urls : UrlCodec) (srv : Server) where
  unfoldable pub redeem_url : IssueBody → String → String
  redeem_url b t =
      let query = insert "ticket" t [] in
      trim_slash srv.cfg.app_base_url
      ++ ("/handoff/redeem"
          ++ ((if b.connector == "" then "" else "/" ++ urls.path_escape b.connector)
              ++ ("?"
                  ++ urls.encode (
                      if b.redirect_to == ""
                      then query
                      else insert "redirect_to" b.redirect_to query))))

  unfoldable issue_reply : IssueBody → Result String → Response
  unfolding redeem_url
  issue_reply b (ok t) = replied 200 (ticket t (redeem_url b t))
  issue_reply b (err e) = failed_with e

  unfoldable issue_body : Option Issuer → Option IssueBody → M Response
  unfolding issue_reply
  issue_body handoff none = pure (replied 400 (plain "invalid json"))
  issue_body handoff (some b) = if is_missing b.lookup then pure incomplete else do
    issued ←
        attempt
          (issue_handoff d crypto json srv.svc handoff b.connector b.lookup.subject b.lookup.email)
    pure (issue_reply b issued)

  unfoldable pub handle_handoff_issue : Option Issuer → Request → M Response
  unfolding has_secret issue_body
  handle_handoff_issue handoff r =
      if not (has_secret srv r)
      then pure forbidden
      else if not (is_some handoff)
      then pure (replied 501 (plain "not available"))
      else issue_body handoff r.issue_body

has_secret-refuses :
    (srv : Server) (r : Request)
    → r.header "X-Admin-Secret" ≢ srv.cfg.admin_secret
    → has_secret srv r ≡ false
unfolding has_secret
has_secret-refuses srv r h = ground (arith, eq_iff (r.header "X-Admin-Secret") srv.cfg.admin_secret)

pub admin_refused :
    (d : Deps) (crypto : Crypto) (json : TicketJson) (urls : UrlCodec) (srv : Server)
    (handoff : Option Issuer) (r : Request) (t : History)
    → r.header "X-Admin-Secret" ≢ srv.cfg.admin_secret
    → (handle_admin srv r t ≡ (ok (replied 403 no_body), t))
      × (handle_patch_session d srv r t ≡ (ok forbidden, t))
      × (handle_revoke_session srv r t ≡ (ok forbidden, t))
      × (handle_token_handoff_user d srv r t ≡ (ok forbidden, t))
      × (handle_handoff_issue d crypto json urls srv handoff r t ≡ (ok forbidden, t))
unfolding handle_admin handle_patch_session handle_revoke_session handle_token_handoff_user
    handle_handoff_issue ◌>>=◌
admin_refused d crypto json urls srv handoff r t other =
    let h = has_secret-refuses srv r other in
    (
      rw (h, handle_admin) refl,
      rw (h, handle_patch_session) refl,
      rw (h, handle_revoke_session) refl,
      rw (h, handle_token_handoff_user) refl,
      rw (h, handle_handoff_issue) refl,
    )
