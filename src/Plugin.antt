-- ===== src/Plugin.antt =====
-- The plugin registry: internal/plugin/registry.go, with the descriptors of internal/plugin/api.go.
pub mod Graph
pub mod Order
pub mod Valid
pub mod Kept
pub mod Built
pub mod Acyclic
pub mod Resolve
pub mod Tests
use accessgate.Base.{
  ℕ, String, ◌==◌, Bool, true, false, ◌&&◌, Option, none, some, List, [], ◌∷◌, ◌++◌, is_empty,
  if◌then◌else◌,
}
use accessgate.Base.Dict.{Dict, lookup, insert}

pub record VersionInfo : Type 0 where
  pub api_version : String
  pub min_runtime_version : String
  pub max_runtime_version : String

pub record PluginDescriptor : Type 0 where
  pub id : String
  pub kind : String
  pub name : String
  pub description : String
  pub version : String
  pub capabilities : List String
  pub depends_on : List String
  pub config_schema_ref : String
  pub version_info : VersionInfo

pub data PluginState : Type 0 where
  discovered verified registered started healthy degraded stopped : PluginState

-- A factory is a handle: the registry never calls it.
pub record Registration : Type 0 where
  pub descriptor : PluginDescriptor
  pub factory : ℕ
  pub enabled : Bool
  pub state : PluginState
  pub error : Option String

-- A `*Registration` is named by its plugin's id: Register makes one for an id and nothing replaces
-- it, so byCapability's pointers are read through byID.
pub record Registry : Type 0 where
  pub by_id : Dict Registration
  pub by_capability : Dict (List String)
  pub dependencies : Dict (List String)
  pub dependents : Dict (List String)
  pub sorted_startup : List String

-- New
abbrev pub empty_registry : Registry
empty_registry = record {
  by_id = [];
  by_capability = [];
  dependencies = [];
  dependents = [];
  sorted_startup = [];
}

-- What a call reports: a Go error is `some` message.
pub data Failure : Type 0 where
  already_registered : String → Failure
  unknown_plugin : String → Failure
  no_providers : String → String → Failure
  dependency_cycle : Failure

module _ {ℓ} {V : Type ℓ} where
  -- m[key], nil where the key is missing.
  unfoldable pub listed : String → Dict (List V) → List V
  listed key m = elim (lookup key m) [ none ↦ [] | some values ↦ values ]

  -- m[key] = append(m[key], value)
  unfoldable pub append_to : String → V → Dict (List V) → Dict (List V)
  append_to key value m = insert key (listed key m ++ value ∷ []) m

unfoldable pub append_capabilities : String → List String → Dict (List String) → Dict (List String)
append_capabilities id [] m = m
append_capabilities id (capability ∷ more) m =
    append_capabilities id more (append_to capability id m)

unfoldable pub new_registration : PluginDescriptor → ℕ → Registration
new_registration d factory = record {
  descriptor = d;
  factory = factory;
  enabled = true;
  state = registered;
  error = none;
}

unfoldable pub register : PluginDescriptor → ℕ → Registry → Option Failure × Registry
unfolding append_capabilities new_registration
register d factory r = elim (lookup d.id r.by_id) [
  | some _ ↦ (some (already_registered d.id), r)
  | none ↦ (
    none,
    record r {
      by_id = insert d.id (new_registration d factory) r.by_id;
      by_capability = append_capabilities d.id d.capabilities r.by_capability;
      dependencies =
          if is_empty d.depends_on then r.dependencies else insert d.id d.depends_on r.dependencies;
    },
  )
]

unfoldable set_enabled : Bool → String → Registry → Option Failure × Registry
set_enabled on id r = elim (lookup id r.by_id) [
  | none ↦ (some (unknown_plugin id), r)
  | some reg ↦ (none, record r { by_id = insert id (record reg { enabled = on }) r.by_id })
]

unfoldable pub enable : String → Registry → Option Failure × Registry
unfolding set_enabled
enable id r = set_enabled true id r

unfoldable pub disable : String → Registry → Option Failure × Registry
unfolding set_enabled
disable id r = set_enabled false id r

-- if reg.Enabled { out = append(out, reg.Descriptor) }
keep_enabled : Option Registration → List PluginDescriptor → List PluginDescriptor
keep_enabled none out = out
keep_enabled (some reg) out = if reg.enabled then reg.descriptor ∷ out else out

unfoldable enabled_among : Dict Registration → List String → List PluginDescriptor
unfolding keep_enabled
enabled_among by_id [] = []
enabled_among by_id (id ∷ ids) = keep_enabled (lookup id by_id) (enabled_among by_id ids)

unfoldable pub resolve_by_capability : String → Registry → List PluginDescriptor
unfolding enabled_among listed
resolve_by_capability capability r = enabled_among r.by_id (listed capability r.by_capability)

unfoldable of_kind : String → Dict Registration → List PluginDescriptor
of_kind kind [] = []
of_kind kind ((_, reg) ∷ more) =
    let out = of_kind kind more in
    if reg.enabled && reg.descriptor.kind == kind then reg.descriptor ∷ out else out

unfoldable pub resolve_all_by_kind : String → Registry → List PluginDescriptor
unfolding of_kind
resolve_all_by_kind kind r = of_kind kind r.by_id

unfoldable pub keys {ℓ} : {V : Type ℓ} → Dict V → List String
keys [] = []
keys ((key, _) ∷ more) = key ∷ keys more

unfoldable pub all_plugin_ids : Registry → List String
unfolding keys
all_plugin_ids r = keys r.by_id

unfoldable pub registration_for : String → Registry → Option Registration
registration_for id r = lookup id r.by_id

unfoldable pub startup_order : Registry → List String
startup_order r = r.sorted_startup

-- What a program does with a registry before BuildDependencyGraph.
pub data Call : Type 0 where
  registers : PluginDescriptor → ℕ → Call
  enables disables : String → Call

unfoldable pub perform : Call → Registry → Option Failure × Registry
unfolding register enable disable
perform (registers d factory) r = register d factory r
perform (enables id) r = enable id r
perform (disables id) r = disable id r

unfoldable pub set_up : List Call → Registry → Registry
unfolding perform
set_up [] r = r
set_up (call ∷ calls) r = set_up calls (perform call r).1
