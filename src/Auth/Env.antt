-- ===== src/Auth/Env.antt =====
-- What the auth service calls: its stores (pkg/session/store.go), the identity provider
-- (internal/plugin/api.go), the random source, the clock, JWT parsing, the webhook's HTTP client
-- and the metrics. An environment answers each call from the history of all calls so far, newest
-- first, so it may be any store, also one that other processes write, and may fail at any call.
pub mod Keeps
use Prim.Native.String.{◌++◌}
use accessgate.Base.{ℕ, String, Option, List, ◌∷◌, Bool}
use accessgate.Base.Int.{ℤ}
use accessgate.Base.Dict.{Dict}
use accessgate.Base.Result.{Result, ok, err}
use accessgate.Claims.{Value, Claims}
use accessgate.Session.{Session, PkceState}

-- plugin.ProviderTokens
pub record ProviderTokens : Type 0 where
  pub access_token : String
  pub refresh_token : String
  pub id_token : String
  pub expires_in : ℤ

pub record Webhook : Type 0 where
  pub url : String
  pub session_id : String
  pub subject : String
  pub email : String
  pub claims : Claims
  pub host : String

-- A store, a lock or a provider is named by a number: the interface value that holds it.
pub data Event : Type 0 where
  session_got : ℕ → String → Result (Option Session) → Event
  session_stored : ℕ → String → Session → ℤ → Result (Unit {0}) → Event
  session_deleted : ℕ → String → Result (Unit {0}) → Event
  session_found : ℕ → String → String → Result (Option Session) → Event
  pkce_got : ℕ → String → Result (Option PkceState) → Event
  pkce_stored : ℕ → String → PkceState → ℤ → Result (Unit {0}) → Event
  pkce_deleted : ℕ → String → Result (Unit {0}) → Event
  lock_obtained : ℕ → String → ℤ → Result Bool → Event
  lock_released : ℕ → String → Result (Unit {0}) → Event
  url_authorized : ℕ → String → String → String → Dict String → Result String → Event
  code_exchanged : ℕ → String → String → String → Result ProviderTokens → Event
  tokens_refreshed : ℕ → String → Result ProviderTokens → Event
  url_ended : ℕ → String → String → Result String → Event
  jwks_fetched : String → Result String → Event
  jwt_parsed : String → String → Result (Dict Value) → Event
  random_read : ℕ → Result String → Event
  clock_read : ℤ → Event
  nanos_read : ℕ → Event
  once_consumed : String → ℤ → Result Bool → Event
  webhook_posted : Webhook → Result (Unit {0}) → Event
  login_started logout_completed : Event
  login_completed refresh_completed : Bool → Event
  connector_called_back handoff_issued handoff_redeemed : String → Bool → Event

abbrev pub History : Type 0
History = List Event

pub record Env : Type 0 where
  pub session_get : History → ℕ → String → Result (Option Session)
  pub session_set : History → ℕ → String → Session → ℤ → Result (Unit {0})
  pub session_delete : History → ℕ → String → Result (Unit {0})
  pub session_find : History → ℕ → String → String → Result (Option Session)
  pub pkce_get : History → ℕ → String → Result (Option PkceState)
  pub pkce_set : History → ℕ → String → PkceState → ℤ → Result (Unit {0})
  pub pkce_delete : History → ℕ → String → Result (Unit {0})
  pub lock_obtain : History → ℕ → String → ℤ → Result Bool
  pub lock_release : History → ℕ → String → Result (Unit {0})
  pub authorization_url : History → ℕ → String → String → String → Dict String → Result String
  pub exchange_code : History → ℕ → String → String → String → Result ProviderTokens
  pub refresh : History → ℕ → String → Result ProviderTokens
  pub end_session_url : History → ℕ → String → String → Result String
  pub get_jwks : History → String → Result String
  -- jwt.Parse with the key set, the issuer, and the checks of expiry and issue time.
  pub parse_jwt : History → String → String → String → Result (Dict Value)
  -- crypto/rand, in base64's URL alphabet.
  pub random : History → ℕ → Result String
  -- time.Now().Unix()
  pub now : History → ℤ
  -- time.Now() in nanoseconds, as the handoff tickets read it.
  pub now_nanos : History → ℕ
  pub consume_once : History → String → ℤ → Result Bool
  pub post_webhook : History → Webhook → Result (Unit {0})

-- A call may fail, and what was done before the failure stays done.
abbrev pub M : Type 0 → Type 0
M A = History → Result A × History

module _ {A : Type 0} where
  pub pure : A → M A
  pure a t = (ok a, t)

  pub raise : String → M A
  raise e t = (err e, t)

  pub lift : Result A → M A
  lift r t = (r, t)

  -- The outcome as a value, where the code inspects the error.
  pub attempt : M A → M (Result A)
  attempt m t = (ok (m t).0, (m t).1)

  -- A call: its answer, and the event that records it.
  pub call : (History → Result A) → (Result A → Event) → M A
  call answer event t = (answer t, event (answer t) ∷ t)

  -- fmt.Errorf("...: %w", err)
  pub wrap_error : String → M A → M A
  wrap_error prefix m t = elim (m t).0 [
    | ok a ↦ (ok a, (m t).1)
    | err e ↦ (err (prefix ++ e), (m t).1)
  ]

  -- A deferred action, which may read the outcome, and whose own outcome is dropped: it runs after
  -- success and failure alike.
  pub finally : (Result A → M (Unit {0})) → M A → M A
  finally last m t = ((m t).0, (last (m t).0 (m t).1).1)

pub emit : Event → M (Unit {0})
emit event t = (ok tt, event ∷ t)

pub now_from : (History → ℤ) → M ℤ
now_from now t = (ok (now t), clock_read (now t) ∷ t)

pub nanos_from : (History → ℕ) → M ℕ
nanos_from now t = (ok (now t), nanos_read (now t) ∷ t)

module _ {A B : Type 0} where
  infixl 5 ◌>>=◌ ◌>>◌
  -- Opening this opens the other ways to build an action too.
  unfoldable pub ◌>>=◌ : M A → (A → M B) → M B
  unfolding pure raise lift attempt call wrap_error finally emit now_from nanos_from
  ◌>>=◌ m f t = elim (m t).0 [ ok a ↦ f a (m t).1 | err e ↦ (err e, (m t).1) ]

  abbrev pub ◌>>◌ : M A → M B → M B
  m >> n = m >>= λ _. n

abbrev pub deferring : {A : Type 0} → M (Unit {0}) → M A → M A
deferring last m = finally (λ _. last) m

module _ (env : Env) where
  abbrev pub get_session : ℕ → String → M (Option Session)
  get_session store id = call (λ t. env.session_get t store id) (session_got store id)

  abbrev pub set_session : ℕ → String → Session → ℤ → M (Unit {0})
  set_session store id s ttl =
      call (λ t. env.session_set t store id s ttl) (session_stored store id s ttl)

  abbrev pub delete_session : ℕ → String → M (Unit {0})
  delete_session store id = call (λ t. env.session_delete t store id) (session_deleted store id)

  abbrev pub find_session : ℕ → String → String → M (Option Session)
  find_session finder subject email =
      call (λ t. env.session_find t finder subject email) (session_found finder subject email)

  abbrev pub get_pkce : ℕ → String → M (Option PkceState)
  get_pkce store state = call (λ t. env.pkce_get t store state) (pkce_got store state)

  abbrev pub set_pkce : ℕ → String → PkceState → ℤ → M (Unit {0})
  set_pkce store state p ttl =
      call (λ t. env.pkce_set t store state p ttl) (pkce_stored store state p ttl)

  abbrev pub delete_pkce : ℕ → String → M (Unit {0})
  delete_pkce store state = call (λ t. env.pkce_delete t store state) (pkce_deleted store state)

  abbrev pub obtain_lock : ℕ → String → ℤ → M Bool
  obtain_lock lock id ttl = call (λ t. env.lock_obtain t lock id ttl) (lock_obtained lock id ttl)

  abbrev pub release_lock : ℕ → String → M (Unit {0})
  release_lock lock id = call (λ t. env.lock_release t lock id) (lock_released lock id)

  abbrev pub authorize_url : ℕ → String → String → String → Dict String → M String
  authorize_url provider state challenge nonce extra =
      call (λ t. env.authorization_url t provider state challenge nonce extra)
        (url_authorized provider state challenge nonce extra)

  abbrev pub exchange : ℕ → String → String → String → M ProviderTokens
  exchange provider code verifier redirect_uri =
      call (λ t. env.exchange_code t provider code verifier redirect_uri)
        (code_exchanged provider code verifier redirect_uri)

  abbrev pub refresh_tokens : ℕ → String → M ProviderTokens
  refresh_tokens provider refresh_token =
      call (λ t. env.refresh t provider refresh_token) (tokens_refreshed provider refresh_token)

  abbrev pub end_session : ℕ → String → String → M String
  end_session provider hint redirect_to =
      call (λ t. env.end_session_url t provider hint redirect_to)
        (url_ended provider hint redirect_to)

  abbrev pub fetch_jwks : String → M String
  fetch_jwks issuer = call (λ t. env.get_jwks t issuer) (jwks_fetched issuer)

  abbrev pub parse_token : String → String → String → M (Dict Value)
  parse_token jwks raw issuer = call (λ t. env.parse_jwt t jwks raw issuer) (jwt_parsed raw issuer)

  abbrev pub read_random : ℕ → M String
  read_random size = call (λ t. env.random t size) (random_read size)

  abbrev pub read_clock : M ℤ
  read_clock = now_from env.now

  abbrev pub read_nanos : M ℕ
  read_nanos = nanos_from env.now_nanos

  abbrev pub once : String → ℤ → M Bool
  once key ttl = call (λ t. env.consume_once t key ttl) (once_consumed key ttl)

  abbrev pub post : Webhook → M (Unit {0})
  post w = call (λ t. env.post_webhook t w) (webhook_posted w)
