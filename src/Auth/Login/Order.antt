-- ===== src/Auth/Login/Order.antt =====
-- The order of the calls in LoginEnd of internal/auth/service/service.go.
use accessgate.Base.{
  ℕ, String, ◌≡◌, refl, eq_refl, Bool, true, false, not, ◌&&◌, ◌||◌, Option, none, some, [], ◌∷◌,
  arith, eqb, ◌==◌, if◌then◌else◌,
}
use accessgate.Base.Int.{ℤ}
use accessgate.Base.Result.{Result, ok, err}
use accessgate.Session.{Session, PkceState}
use accessgate.Token.{Principal, validate_claims}
use accessgate.Auth.Env.{
  History, Event, login_completed, connector_called_back, session_stored, pkce_got, pkce_deleted,
  code_exchanged, jwt_parsed, ProviderTokens, Webhook, read_random, exchange, delete_pkce, ◌>>=◌,
  attempt, set_session, get_pkce,
}
use accessgate.Auth.Env.Keeps.{Keeps, keeps_rules, after-bind}
use accessgate.Auth.Service.{Service, Connector, Deps, conn, audience_of}
use accessgate.Auth.Refresh.{expires_from, validate_id_token}
use accessgate.Auth.Login.{
  LoginEndRequest, call_post_login_webhook, welcome, sign_in, new_session, after_validation,
  after_exchange, after_pkce, found_pkce, login_callback, login_end,
}

-- How far a login has come.
pub data Stage : Type 0 where
  idle : Stage
  known consumed : PkceState → Stage
  exchanged verified : PkceState → ProviderTokens → Stage

is_valid : Result Principal → Bool
is_valid (ok p) = true
is_valid (err e) = false

module _ (d : Deps) (c : Connector) (req : LoginEndRequest) where
  -- One step of a login: from the PKCE state that the request names, through its deletion, the
  -- exchange with its verifier, to an ID token that names the audience and its nonce.
  unfoldable advance : Event → Stage → Stage
  unfolding is_valid
  advance (pkce_got store state (ok (some p))) g =
      if eqb store c.pkce && state == req.state then known p else g
  advance (pkce_deleted store state r) (known p) =
      if eqb store c.pkce && state == req.state then consumed p else known p
  advance (code_exchanged provider code verifier uri (ok tokens)) (consumed p) =
      if code == req.code && verifier == p.code_verifier then exchanged p tokens else idle
  advance (jwt_parsed raw issuer (ok claims)) (exchanged p tokens) =
      if raw == tokens.id_token
        && issuer == c.cfg.oidc_issuer
        && is_valid (validate_claims d.numbers claims (audience_of c) p.nonce)
      then verified p tokens
      else idle
  advance _ g = g

  unfoldable stage : History → Stage
  stage [] = idle
  stage (e ∷ t) = advance e (stage t)

  -- The session holds the tokens of a login that has come to its end.
  unfoldable is_earned : Stage → Session → Bool
  is_earned (verified p tokens) sess =
      sess.access_token == tokens.access_token
      && sess.refresh_token == tokens.refresh_token
      && sess.id_token == tokens.id_token
  is_earned _ sess = false

  -- Every session in the connector's store was stored behind such a login.
  unfoldable pub in_order : History → Bool
  unfolding advance stage is_earned
  in_order [] = true
  in_order (session_stored store id sess ttl r ∷ t) =
      (not (eqb store c.sessions) || is_earned (stage t) sess) && in_order t
  in_order (_ ∷ t) = in_order t

  pub record IsInOrder (t : History) : Type 0 where
    pub ordered : in_order t ≡ true

  record IsAt (g : Stage) (t : History) : Type 0 where
    ordered : in_order t ≡ true
    here : stage t ≡ g

  webhook-IsInOrder : (w : Webhook) → Keeps IsInOrder (call_post_login_webhook d w)
  unfolding in_order call_post_login_webhook ◌>>=◌
  webhook-IsInOrder w = record { at = λ t h. ground arith }

  welcome-IsInOrder :
      (s : Service) (p : PkceState) (u : Principal) (sess : Session)
      → Keeps IsInOrder (welcome d s req p u sess)
  unfolding welcome
  welcome-IsInOrder s p u sess = search (keeps_rules, webhook-IsInOrder)

  expires-IsAt : (g : Stage) (n : ℤ) → Keeps (IsAt g) (expires_from d n)
  unfolding in_order expires_from ◌>>=◌
  expires-IsAt g n = record { at = λ t h. ground arith }

  stored-IsInOrder :
      (p : PkceState) (tokens : ProviderTokens) (u : Principal) (id : String) (e : ℤ) (ttl : ℤ)
      (t : History)
      → IsAt (verified p tokens) t
      → IsInOrder (set_session d.env c.sessions id (new_session d c tokens u id e) ttl t).1
  unfolding in_order new_session ◌>>=◌
  stored-IsInOrder p tokens u id e ttl t h =
      ground
        (arith, eq_refl tokens.access_token, eq_refl tokens.refresh_token, eq_refl tokens.id_token)

  weaken : (g : Stage) (t : History) → IsAt g t → IsInOrder t
  weaken g t h = record { ordered = h.ordered }

  random-IsAt : (g : Stage) (n : ℕ) → Keeps (IsAt g) (read_random d.env n)
  unfolding in_order ◌>>=◌
  random-IsAt g n = record { at = λ t h. ground arith }

  sign_in-IsInOrder :
      (s : Service) (p : PkceState) (tokens : ProviderTokens) (u : Principal) (t : History)
      → IsAt (verified p tokens) t
      → IsInOrder (sign_in d s c req p tokens u t).1
  unfolding sign_in
  sign_in-IsInOrder s p tokens u t h =
      let g = verified p tokens in
      let expires = expires_from d tokens.expires_in in
      let random = read_random d.env 32 in
      let h1 = (expires-IsAt g tokens.expires_in).at t h in
      let h2 = (random-IsAt g 32).at (expires t).1 h1 in
      after-bind IsInOrder expires _ t
        (λ at _.
          after-bind IsInOrder random _ (expires t).1
            (λ id _.
              let stored =
                stored-IsInOrder p tokens u id at c.cfg.session_ttl_seconds (random (expires t).1).1
                  h2 in
              after-bind IsInOrder
                (set_session d.env c.sessions id (new_session d c tokens u id at)
                  c.cfg.session_ttl_seconds)
                _ (random (expires t).1).1
                (λ _ _. (welcome-IsInOrder s p u (new_session d c tokens u id at)).at _ stored)
                (λ _ _. stored))
            (λ _ _. weaken g _ h2))
        (λ _ _. weaken g _ h1)

  validated-IsAt :
      (p : PkceState) (tokens : ProviderTokens) (u : Principal) (t : History)
      → (validate_id_token d tokens.id_token c.cfg.oidc_issuer (audience_of c) p.nonce t).0 ≡ ok u
      → IsAt (exchanged p tokens) t
      → IsAt
          (verified p tokens)
          (validate_id_token d tokens.id_token c.cfg.oidc_issuer (audience_of c) p.nonce t).1
  unfolding in_order validate_id_token ◌>>=◌
  validated-IsAt p tokens u t e h =
      ground (arith, eq_refl tokens.id_token, eq_refl c.cfg.oidc_issuer)

  validate-IsInOrder :
      (raw nonce : String)
      → Keeps IsInOrder (validate_id_token d raw c.cfg.oidc_issuer (audience_of c) nonce)
  unfolding in_order validate_id_token ◌>>=◌
  validate-IsInOrder raw nonce = record { at = λ t h. ground arith }

  after_validation-IsInOrder :
      (s : Service) (p : PkceState) (tokens : ProviderTokens) (t : History) (r : Result Principal)
      → (validate_id_token d tokens.id_token c.cfg.oidc_issuer (audience_of c) p.nonce t).0 ≡ r
      → IsAt (exchanged p tokens) t
      → IsInOrder
          (after_validation d s c req p tokens r
            (validate_id_token d tokens.id_token c.cfg.oidc_issuer (audience_of c) p.nonce t).1).1
  after_validation-IsInOrder s p tokens t (ok u) e h =
      unfold after_validation in sign_in-IsInOrder s p tokens u _ (validated-IsAt p tokens u t e h)
  after_validation-IsInOrder s p tokens t (err x) e h =
      unfold after_validation ◌>>=◌ in
      (validate-IsInOrder tokens.id_token p.nonce).at t (weaken _ t h)

  after_exchange-IsInOrder :
      (s : Service) (p : PkceState) (tokens : ProviderTokens) (t : History)
      → IsAt (exchanged p tokens) t
      → IsInOrder (after_exchange d s c req p (ok tokens) t).1
  unfolding after_exchange ◌>>=◌
  after_exchange-IsInOrder s p tokens t h = after_validation-IsInOrder s p tokens t _ refl h

  deleted-IsAt :
      (p : PkceState) (t : History)
      → IsAt (known p) t
      → IsAt (consumed p) (delete_pkce d.env c.pkce req.state t).1
  unfolding in_order ◌>>=◌
  deleted-IsAt p t h = ground (arith, eq_refl req.state)

  exchanged-IsAt :
      (p : PkceState) (tokens : ProviderTokens) (t : History)
      → (exchange d.env c.provider req.code p.code_verifier c.cfg.oidc_redirect_uri t).0 ≡ ok tokens
      → IsAt (consumed p) t
      → IsAt
          (exchanged p tokens)
          (exchange d.env c.provider req.code p.code_verifier c.cfg.oidc_redirect_uri t).1
  unfolding in_order ◌>>=◌
  exchanged-IsAt p tokens t e h = ground (arith, eq_refl req.code, eq_refl p.code_verifier)

  exchange-IsInOrder :
      (verifier : String)
      → Keeps IsInOrder (exchange d.env c.provider req.code verifier c.cfg.oidc_redirect_uri)
  unfolding in_order ◌>>=◌
  exchange-IsInOrder verifier = record { at = λ t h. ground arith }

  answered-IsInOrder :
      (s : Service) (p : PkceState) (t : History) (r : Result ProviderTokens)
      → (exchange d.env c.provider req.code p.code_verifier c.cfg.oidc_redirect_uri t).0 ≡ r
      → IsAt (consumed p) t
      → IsInOrder
          (after_exchange d s c req p r
            (exchange d.env c.provider req.code p.code_verifier c.cfg.oidc_redirect_uri t).1).1
  answered-IsInOrder s p t (ok tokens) e h =
      after_exchange-IsInOrder s p tokens _ (exchanged-IsAt p tokens t e h)
  answered-IsInOrder s p t (err x) e h =
      unfold after_exchange ◌>>=◌ in (exchange-IsInOrder p.code_verifier).at t (weaken _ t h)

  known-IsAt :
      (p : PkceState) (t : History)
      → (get_pkce d.env c.pkce req.state t).0 ≡ ok (some p)
      → IsInOrder t
      → IsAt (known p) (get_pkce d.env c.pkce req.state t).1
  unfolding in_order ◌>>=◌
  known-IsAt p t e h = ground (arith, eq_refl req.state)

  get_pkce-IsInOrder : Keeps IsInOrder (get_pkce d.env c.pkce req.state)
  unfolding in_order ◌>>=◌
  get_pkce-IsInOrder = record { at = λ t h. ground arith }

  after_pkce-IsInOrder :
      (s : Service) (t : History) (r : Result (Option PkceState))
      → (get_pkce d.env c.pkce req.state t).0 ≡ r
      → IsInOrder t
      → IsInOrder (after_pkce d s c req (found_pkce r) (get_pkce d.env c.pkce req.state t).1).1
  after_pkce-IsInOrder s t (ok (some p)) e h =
      unfold after_pkce ◌>>=◌ in
      answered-IsInOrder s p _ _ refl (deleted-IsAt p _ (known-IsAt p t e h))
  after_pkce-IsInOrder s t (ok none) e h = unfold after_pkce ◌>>=◌ in get_pkce-IsInOrder.at t h
  after_pkce-IsInOrder s t (err x) e h = unfold after_pkce ◌>>=◌ in get_pkce-IsInOrder.at t h

  asked-IsInOrder :
      (s : Service)
      → Keeps IsInOrder (
          attempt (get_pkce d.env c.pkce req.state) >>= λ got.
          after_pkce d s c req (found_pkce got))
  unfolding ◌>>=◌
  asked-IsInOrder s = record { at = λ t h. after_pkce-IsInOrder s t _ refl h }

  callback-IsInOrder : (s : Service) → Keeps IsInOrder (login_callback d s c req)
  unfolding login_callback
  callback-IsInOrder s = search (keeps_rules, asked-IsInOrder)

  ended-IsInOrder :
      (id : String) (a b : Bool) (t : History)
      → IsInOrder t
      → IsInOrder (login_completed a ∷ connector_called_back id b ∷ t)
  unfolding in_order
  ended-IsInOrder id a b t h = record { ordered = h.ordered }

  -- LoginEnd stores a session with the connector only if it read the PKCE state that the request
  -- names, deleted it, exchanged the request's code with that state's verifier, and validated the
  -- ID token it got for the connector's audience and the state's nonce, in this order; the session
  -- then holds the tokens of that exchange. This holds whatever the environment answers, if the
  -- connector is the request's and the calls before were in order.
  pub login_end-IsInOrder :
      (s : Service) (t : History)
      → conn s req.connector ≡ ok c
      → IsInOrder t
      → IsInOrder (login_end d s req t).1
  login_end-IsInOrder s t e h =
      unfold login_end ◌>>=◌ in
      rw e (ended-IsInOrder c.cfg.id _ _ _ ((callback-IsInOrder s).at t h))
