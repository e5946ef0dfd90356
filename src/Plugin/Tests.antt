-- ===== src/Plugin/Tests.antt =====
-- Runs of the plugin registry on a gateway, an OIDC provider and a rate limiter, and the witnesses
-- of the theorems.
use accessgate.Base.{
  ◌∙◌, ap, Bool-cases, inl, inr, ℕ, String, ◌≡◌, ◌≢◌, refl, true, none, some, List, [], ◌∷◌, arith,
  if◌then◌else◌, eq_iff, ◌==◌,
}
use accessgate.Base.Dict.{lookup, insert}
use accessgate.Base.Int.{pos, ◌+ℤ◌, ◌-ℤ◌}
use accessgate.Plugin.{
  PluginDescriptor, Registry, Call, Registration, registers, enables, disables, set_up, perform,
  disable, set_enabled, new_registration, empty_registry, append_to, register, startup_order,
  listed, dependency_cycle, already_registered,
}
use accessgate.Plugin.Graph.Edges.{provided}
use accessgate.Plugin.Graph.Counts.{count}
use accessgate.Plugin.Graph.{degree, build_dependency_graph, sort}
use accessgate.Plugin.Graph.Termination.{sort_total}
use accessgate.Plugin.Valid.{IsValid}
use accessgate.Plugin.Kept.{IsHeld, set_up-IsHeld}
use accessgate.Plugin.Order.{providers_of}
use accessgate.Plugin.Built.{IsStartup, build-IsStartup}
use accessgate.Plugin.Acyclic.{IsRanked, build-acyclic}

abbrev plugin : String → List String → List String → PluginDescriptor
plugin id capabilities depends_on = record {
  id = id;
  kind = "pipeline";
  name = id;
  description = "";
  version = "1.0.0";
  capabilities = capabilities;
  depends_on = depends_on;
  config_schema_ref = "";
  version_info = record { api_version = "v1"; min_runtime_version = ""; max_runtime_version = "" };
}

abbrev gateway_calls : List Call
gateway_calls =
    registers (plugin "gateway" [] ("provider:oidc" ∷ "pipeline:ratelimit" ∷ [])) 0
    ∷ registers (plugin "oidc" ("provider:oidc" ∷ []) ("pipeline:ratelimit" ∷ [])) 1
    ∷ registers (plugin "limiter" ("pipeline:ratelimit" ∷ []) []) 2
    ∷ disables "limiter"
    ∷ []

-- Two plugins that need each other.
abbrev cycle_calls : List Call
cycle_calls =
    registers (plugin "a" ("x" ∷ []) ("y" ∷ [])) 0
    ∷ registers (plugin "b" ("y" ∷ []) ("x" ∷ [])) 1
    ∷ []

abbrev gateway : Registry
gateway = set_up gateway_calls empty_registry

gateway_order :
    startup_order (build_dependency_graph gateway).1 ≡ "limiter" ∷ "oidc" ∷ "gateway" ∷ []
unfolding build_dependency_graph set_up startup_order lookup insert listed append_to ◌+ℤ◌ ◌-ℤ◌
    degree
gateway_order = refl

cycle_refused :
    (build_dependency_graph (set_up cycle_calls empty_registry)).0 ≡ some dependency_cycle
unfolding build_dependency_graph set_up lookup insert listed append_to ◌+ℤ◌ ◌-ℤ◌ degree
cycle_refused = refl

twice_refused : (register (plugin "oidc" [] []) 3 gateway).0 ≡ some (already_registered "oidc")
unfolding register set_up lookup insert
twice_refused = refl

-- A second call links the edges again and lowers each degree twice: the gateway starts before the
-- provider it needs.
abbrev diamond_calls : List Call
diamond_calls =
    registers (plugin "gateway" [] ("b" ∷ "c" ∷ [])) 0
    ∷ registers (plugin "b" ("b" ∷ []) []) 1
    ∷ registers (plugin "c" ("c" ∷ []) ("d" ∷ [])) 2
    ∷ registers (plugin "d" ("d" ∷ []) []) 3
    ∷ []

second_order :
    startup_order
      (build_dependency_graph (build_dependency_graph (set_up diamond_calls empty_registry)).1).1
    ≡ "b" ∷ "d" ∷ "gateway" ∷ "c" ∷ []
unfolding build_dependency_graph set_up startup_order lookup insert listed append_to ◌+ℤ◌ ◌-ℤ◌
    degree
second_order = refl

gateway_built : (build_dependency_graph gateway).0 ≡ none
unfolding build_dependency_graph set_up lookup insert listed append_to ◌+ℤ◌ ◌-ℤ◌ degree
gateway_built = refl

abbrev gateway_rank : String → ℕ
gateway_rank id = if "gateway" == id then 2 else if "oidc" == id then 1 else 0

gateway_dependencies :
    (id : String)
    → listed id gateway.dependencies ≡ (
        if "gateway" == id
        then "provider:oidc" ∷ "pipeline:ratelimit" ∷ []
        else if "oidc" == id
        then "pipeline:ratelimit" ∷ []
        else [])
unfolding set_up lookup insert append_to listed
gateway_dependencies id = ground arith

gateway_providers :
    (id : String)
    → providers_of gateway id ≡ (
        if "gateway" == id
        then "oidc" ∷ "limiter" ∷ []
        else if "oidc" == id
        then "limiter" ∷ []
        else [])
unfolding providers_of set_up lookup insert append_to listed provided
gateway_providers id =
    ap (provided gateway) (gateway_dependencies id) ∙ (elim (Bool-cases ("gateway" == id)) [
      | inl e ↦ rw e refl
      | inr e ↦ elim (Bool-cases ("oidc" == id)) [
        | inl f ↦ rw e (rw f refl)
        | inr f ↦ rw e (rw f refl)
      ]
    ])

rank_at : (p name : String) → (p == name) ≡ true → gateway_rank p ≡ gateway_rank name
rank_at p name e = ap gateway_rank ((eq_iff p name).0 e)

gateway-IsRanked : IsRanked gateway gateway_rank
unfolding count
gateway-IsRanked = record {
  below = λ id p h. ground (arith, gateway_providers id, rank_at p "oidc", rank_at p "limiter");
}

abbrev oidc_registration : Registration
oidc_registration =
    new_registration (plugin "oidc" ("provider:oidc" ∷ []) ("pipeline:ratelimit" ∷ [])) 1

-- A second plugin under the same id, and the first one taken out and in again.
abbrev again_calls : List Call
again_calls =
    registers (plugin "oidc" ("provider:other" ∷ []) []) 7 ∷ disables "oidc" ∷ enables "oidc" ∷ []

oidc_registered : lookup "oidc" gateway.by_id ≡ some oidc_registration
unfolding set_up perform register disable set_enabled new_registration lookup insert
oidc_registered = refl

set_up-IsHeld_example :
    IsHeld "oidc" oidc_registration (set_up again_calls gateway)
    × IsValid (set_up again_calls gateway)
set_up-IsHeld_example =
    set_up-IsHeld gateway_calls again_calls "oidc" oidc_registration oidc_registered

build-IsStartup_example : IsStartup gateway (startup_order (build_dependency_graph gateway).1)
build-IsStartup_example = build-IsStartup gateway_calls gateway_built

build-acyclic_example : (build_dependency_graph gateway).0 ≢ some dependency_cycle
build-acyclic_example = build-acyclic gateway_calls gateway_rank gateway-IsRanked

sort_total_example :
    (order : List String) × (sort (("a", "b" ∷ []) ∷ []) (("a", pos 0) ∷ ("b", pos 1) ∷ [])
      ≡ some order)
sort_total_example = sort_total (("a", "b" ∷ []) ∷ []) (("a", pos 0) ∷ ("b", pos 1) ∷ [])
