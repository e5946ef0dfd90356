-- ===== src/AuthHttp/Tests.antt =====
-- Runs of the handlers of internal/auth/httpserver/server.go in the auth service's sample world,
-- and the theorems at them.
use accessgate.Base.{String, ◌==◌, ◌≡◌, refl, false, none, some, [], ◌∷◌, if◌then◌else◌, ◌≢◌}
use accessgate.Redirect.{validate_redirect}
use accessgate.Base.Text.{trim_space, cut, has_prefix}
use accessgate.Base.Dict.{lookup}
use accessgate.Base.Result.{ok}
use accessgate.Crypto.Sample.{sample_crypto}
use accessgate.Handoff.{Ticket, verify}
use accessgate.Auth.Env.{◌>>=◌}
use accessgate.Auth.Service.{conn}
use accessgate.Auth.Settings.{connector_by_id}
use accessgate.Auth.Resolve.{shown_session}
use accessgate.Auth.Tickets.{redeem_handoff, redeem_ticket, accept, hand_over}
use accessgate.Auth.Sample.{service, config, deps, issuer, ticket_json, due_session}
use accessgate.AuthHttp.{
  Request, Response, Server, user, replied, no_body, redirected, connector_cookie, cookie_header,
  clear_cookie,
}
use accessgate.AuthHttp.Handlers.{handle_me, handle_handoff_redeem}
use accessgate.AuthHttp.Admin.{
  UrlCodec, forbidden, handle_admin, handle_patch_session, handle_revoke_session,
  handle_token_handoff_user, handle_handoff_issue, admin_refused,
}
use accessgate.AuthHttp.Safe.{IsHandedOver, handle_handoff_redeem-IsHandedOver}

abbrev server : Server
server = record {
  svc = service;
  cfg = record config { admin_secret = "admin" };
  cookie = "sid";
  ping = none;
}

abbrev query : String → String
query name =
    if name == "code"
    then "code"
    else if name == "state"
    then "st"
    else if name == "ticket"
    then "j1.key:j1"
    else ""

abbrev request : Request
request = record {
  method = "GET";
  connector = "web";
  host = "app.example.com";
  query = query;
  form = λ name. "";
  header = λ name. "";
  cookie = λ name. if name == "sid" then "signed:s1" else "";
  issue_body = none;
  patch_body = none;
  lookup_body = none;
  delegated_body = none;
}

abbrev urls : UrlCodec
urls = record { path_escape = λ s. s; encode = λ q. "q" }

me_fine : (handle_me deps server request []).0 ≡ ok (replied 200 (user due_session))
unfolding handle_me shown_session conn lookup connector_cookie connector_by_id ◌>>=◌
me_fine = refl

-- The same server with a cookie that is bound to the host.
abbrev host_server : Server
host_server = record server {
  cfg = record config { connectors = []; cookie_secure = false; cookie_domain = "example.com" };
  cookie = "__Host-sid";
}

-- The domain of a cookie that is set with one is missing when it is cleared.
abbrev domain_server : Server
domain_server = record server { cfg = record config { cookie_domain = "example.com" } }

domain_set :
    cookie_header deps.strconv domain_server "web" "v"
    ≡ "sid=v; Path=/; Max-Age=int; HttpOnly; Domain=example.com; Secure; SameSite=Lax"
unfolding cookie_header connector_by_id has_prefix
domain_set = refl

domain_not_cleared :
    clear_cookie domain_server "sid"
    ≡ "sid=; Path=/; Max-Age=0; HttpOnly" ∷ "sid=; Path=/; Max-Age=0; HttpOnly; Secure" ∷ []
unfolding clear_cookie
domain_not_cleared = refl

no_secret : request.header "X-Admin-Secret" ≢ server.cfg.admin_secret
no_secret e = cc

admin_refused_example :
    (handle_admin server request [] ≡ (ok (replied 403 no_body), []))
    × (handle_patch_session deps server request [] ≡ (ok forbidden, []))
    × (handle_revoke_session server request [] ≡ (ok forbidden, []))
    × (handle_token_handoff_user deps server request [] ≡ (ok forbidden, []))
    × (handle_handoff_issue deps sample_crypto ticket_json urls server (some issuer) request []
        ≡ (ok forbidden, []))
admin_refused_example =
    admin_refused deps sample_crypto ticket_json urls server (some issuer) request [] no_secret

abbrev redeemed : Response
redeemed =
    redirected (cookie_header deps.strconv server "web" "signed:s1" ∷ []) "https://app.example.com"

redeem_fine :
    (handle_handoff_redeem deps sample_crypto ticket_json server (some issuer) request []).0
    ≡ ok redeemed
unfolding handle_handoff_redeem redeem_handoff redeem_ticket accept hand_over verify sample_crypto
    cut conn lookup ◌>>=◌ validate_redirect trim_space has_prefix
redeem_fine = refl

handle_handoff_redeem-IsHandedOver_example :
    (value : String) × (connector : String) × (tk : Ticket) × IsHandedOver deps sample_crypto
      ticket_json server issuer request [] redeemed value connector tk
handle_handoff_redeem-IsHandedOver_example =
    handle_handoff_redeem-IsHandedOver deps sample_crypto ticket_json server issuer request []
      redeemed redeem_fine (λ e. cc)
