-- ===== src/Lib.antt =====
-- A model of AccessGate: the auth service that signs users in and keeps their sessions, and the
-- proxy that authorizes requests and forwards them.
--
-- The parts and where they are modelled:
--   Redirect        internal/auth/service/redirect.go: ValidateRedirect, sameOrigin
--   Cookie          pkg/cookie/signed.go: SignedManager.Encode and Decode, with rotated keys
--   Handoff         internal/auth/handoff/handoff.go: Issuer.Issue, verify, Redeem (Handoff/Once)
--   Claims, Session the values of a claims map; pkg/session/session.go and pkce.go, the key layout
--   Token           pkg/token/claims.go and the checks of pkg/token/validate_idtoken.go
--   Auth            internal/auth/service/service.go, on these parts:
--     Auth/Env      the stores, the identity provider, the clock and the random source
--     Auth/Service  newService, the connectors, the rules for the authoritative id
--     Auth/Startup  New, NewWithRuntimeStoreProvider and NewMultiConnector
--     Auth/Settings internal/auth/config/config.go: ApplyDefaults, Normalize, Validate, KeyLayout
--     Auth/Login    LoginStart, LoginEnd and the webhook
--     Auth/Refresh  ensureFresh and Refresh
--     Auth/Logout   Logout, with its check of the origin
--     Auth/Resolve  Session, Resolve, AttachTenantContext and their forms by connector
--     Auth/Tickets  EnableHandoff, IssueHandoff, RedeemHandoff
--   Proxy           the proxy, whose principals come from the auth service over HTTP:
--     Proxy/Routes     matchRoute of internal/proxy/httpserver/server.go
--     Proxy/Server     handleProxy of the same file
--     Proxy/Settings   internal/proxy/config: defaults, Normalize, Validate and Load
--     Proxy/Request    NormalizeRequest of internal/authz/normalize.go
--     Proxy/Graphql    internal/graphql/parser.go, the operation name of a request
--     Proxy/Principal  internal/proxy/resolver.go
--     Proxy/Engine     DefaultEngine.Handle of internal/authz/engine.go
--     Proxy/Headers    internal/proxy/headers.go
--     Proxy/Forward    ProxyToUpstream of internal/authz/http.go, up to the reverse proxy
--   Plugin          internal/plugin/registry.go: registration, lookup, the startup order
--   Sdk             pkg/sdk/context.go: the auth context and the session user
--   Redis           internal/redis/redis.go: the stores that the service is started with
--   AuthHttp        internal/auth/httpserver/server.go: the handlers over the service's operations
--   Base, Crypto    shared types and lemmas; the assumptions on the crypto packages
-- A module keeps the name of the function it models, in snake case. What follows a call or a test
-- of a long function is a function of its own, named for what it does.
--
-- A stateful operation of the service is a function from the history of all calls to the outside
-- world to its result and the longer history. An environment (Auth/Env) answers each call from the
-- history, so it may be any store, also one that other processes write, and may fail at any call.
-- The theorems on the service hold for every environment. The Redis stores are modelled apart, on a
-- server's state and a client with the documented behaviour of GET, SET, SET NX and DEL
-- (Redis/Laws). A deferred call is `finally`. A failed
-- operation returns an error and leaves in the history what it had done.
--
-- Parameters, for code that is not in the repository: net/url's parser, encoding/json, HMAC and
-- base64, golang-jwt's Parse, strconv, net/textproto's canonical keys, the one-time store (with
-- its SETNX contract in Handoff/Once), the policy engine, the plugins, unicode.IsDigit,
-- strings.ToLower, go-redis and the Redis server, structpb, the resolver and net.ParseIP, net/url's
-- encoders.
--
-- Conventions: a Go string is a text; the program's separators are ASCII, so it makes no
-- difference to any test here whether characters or bytes are walked. A map is a list of entries,
-- in any order. int64 arithmetic on times wraps (wrap64), and time.Until saturates in the life of a
-- ticket's record. A time to live is exact: the client's rounding to milliseconds is not modelled.
-- Recursion is structural but for two loops on fuel: the queue of BuildDependencyGraph, whose fuel,
-- one round for each plugin, is proved enough, and the SCAN loops, which the server ends. Sessions
-- that a store returns are copies. A plugin's registration is named by its id.
--
-- Left out: tracing spans, log lines, the webhook's body and signature, the proxy's health and
-- admin endpoints, the in-memory stores, HTTP clients, the decoding of configuration
-- files, the plugins themselves, policy bundles and the gRPC server.
pub mod Base
pub mod Redirect
pub mod Crypto
pub mod Cookie
pub mod Handoff
pub mod Claims
pub mod Session
pub mod Token
pub mod Auth
pub mod Plugin
pub mod Redis
pub mod AuthHttp
pub mod Sdk
pub mod Proxy
