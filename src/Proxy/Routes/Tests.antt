-- ===== src/Proxy/Routes/Tests.antt =====
-- Runs of the route table of internal/proxy/httpserver/server.go, and the theorems at them.
use accessgate.Base.{String, ◌≡◌, refl, ◌↔◌, ◌⊎◌, none, some, List, [], ◌∷◌, true}
use accessgate.Base.Text.{has_prefix, cut}
use accessgate.Proxy.Routes.{plain_route, Route, match_route, path_matches}
use accessgate.Proxy.Routes.Choice.{Ends, match_route-Ends}
use accessgate.Proxy.Routes.Segments.{IsWithin, path_matches-segments}

abbrev route : String → String → List String → Route (Unit {0})
route id prefix hosts = record { config = plain_route id hosts prefix ""; engine = tt }

abbrev path : String
path = "/api/users"

abbrev prefix : String
prefix = "/api"

abbrev table : List (Route (Unit {0}))
table =
    route "root" "/" []
    ∷ route "api" "/api" []
    ∷ route "admin" "/api" ("admin.example.com" ∷ [])
    ∷ route "users" "/api/users" []
    ∷ []

runs :
    (match_route "example.com:8080" "/api/users/7" table ≡ some (route "users" "/api/users" []))
    × (match_route "admin.example.com:443" "/api/x" table ≡ some (route "api" "/api" []))
    × (match_route "example.com" "/apikeys" table ≡ some (route "root" "/" []))
unfolding match_route has_prefix cut
runs = (refl, refl, refl)

match_route-Ends_example :
    Ends "example.com:8080" "/api/users/7" none table
      (match_route "example.com:8080" "/api/users/7" table)
match_route-Ends_example = match_route-Ends "example.com:8080" "/api/users/7" table

path_matches-segments_example :
    (path_matches path prefix ≡ true) ↔ ((prefix ≡ "") ⊎ (prefix ≡ "/") ⊎ IsWithin path prefix)
path_matches-segments_example = path_matches-segments path prefix
