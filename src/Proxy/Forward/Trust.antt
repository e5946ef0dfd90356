-- ===== src/Proxy/Forward/Trust.antt =====
-- Which headers the upstream can trust after ProxyToUpstream of internal/authz/http.go.
use accessgate.Base.{String, eq_iff, ◌≡◌, refl, Bool, true, ◌||◌, none, List, [], ◌∷◌, arith}
use accessgate.Base.Text.{eq_fold}
use accessgate.Base.Dict.{Dict, lookup, lookup-insert}
use accessgate.Proxy.Forward.{is_reserved, forward_client, set_headers, outgoing_headers}

-- The keys that never come from the client.
abbrev pub is_withheld : String → Bool
is_withheld k = eq_fold k "Cookie" || is_reserved k

forward_client-withheld :
    (k : String) (client : Dict (List String))
    → is_withheld k ≡ true
    → lookup k (forward_client client) ≡ none
unfolding lookup forward_client
forward_client-withheld k [] w = refl
forward_client-withheld k ((j, v) ∷ more) w =
    ground (arith, eq_iff j k, forward_client-withheld k more w)

set_headers-agree :
    (canonical : String → String) (k : String) (upstream : Dict String) (h h' : Dict (List String))
    → lookup k h ≡ lookup k h'
    → lookup k (set_headers canonical upstream h) ≡ lookup k (set_headers canonical upstream h')
unfolding set_headers
set_headers-agree canonical k [] h h' e = e
set_headers-agree canonical k ((j, v) ∷ more) h h' e = set_headers-agree canonical k more _ _ (
    ground (
      arith,
      e,
      lookup-insert (canonical j) k (v ∷ []) h,
      lookup-insert (canonical j) k (v ∷ []) h',
    ))

-- A cookie header or a reserved identity header reaches the upstream just as if the client had
-- sent no headers at all: its value is the proxy's own or it is missing, in whatever case its name
-- is written.
pub outgoing_headers-withheld :
    (canonical : String → String) (client : Dict (List String)) (upstream : Dict String)
    (k : String)
    → is_withheld k ≡ true
    → lookup k (outgoing_headers canonical client upstream)
      ≡ lookup k (outgoing_headers canonical [] upstream)
unfolding outgoing_headers lookup
outgoing_headers-withheld canonical client upstream k w =
    set_headers-agree canonical k upstream _ _ (forward_client-withheld k client w)
