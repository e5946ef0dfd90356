-- ===== src/Plugin/Valid.antt =====
-- The invariant of the registry: what Register, Enable and Disable of internal/plugin/registry.go
-- keep.
use accessgate.Base.{
  ◌⊎◌, ◌∙◌, ℕ, ◌<◌, String, ◌≡◌, refl, Bool, true, false, none, some, List, [], ◌∷◌, arith,
  is_empty, eq_iff, Option-cases, Bool-cases, inl, inr,
}
use accessgate.Base.Dict.{Dict, lookup, insert}
use accessgate.Plugin.{
  Call, registers, enables, disables, perform, set_up, empty_registry, new_registration,
  set_enabled, PluginDescriptor, Registry, Registration, listed, keys, append_to,
  append_capabilities, register, enable, disable,
}
use accessgate.Plugin.Graph.Counts.{
  count, count_snoc, IsKeyed, keys-insert, insert-IsKeyed, listed-append_to,
}

-- Each id has one registration and one list of dependencies, and the plugins that depend or
-- provide are registered.
pub record IsValid (r : Registry) : Type 0 where
  pub ids : IsKeyed r.by_id
  pub dependencies : IsKeyed r.dependencies
  pub dependent : (id : String) → 0 < count id (keys r.dependencies) → 0 < count id (keys r.by_id)
  pub provider :
      (capability id : String)
      → 0 < count id (listed capability r.by_capability)
      → 0 < count id (keys r.by_id)

listed-append_capabilities :
    (capability asked id : String) (capabilities : List String) (m : Dict (List String))
    → 0 < count asked (listed capability (append_capabilities id capabilities m))
    → (asked ≡ id) ⊎ (0 < count asked (listed capability m))
unfolding append_capabilities
listed-append_capabilities capability asked id [] m h = inr h
listed-append_capabilities capability asked id (c ∷ more) m h = ground (
  arith,
  listed-append_capabilities capability asked id more (append_to c id m) h,
  listed-append_to c capability id m,
  count_snoc asked id (listed c m),
  eq_iff asked id,
  eq_iff c capability,
)

registered-IsValid :
    (d : PluginDescriptor) (factory : ℕ) (r : Registry)
    → lookup d.id r.by_id ≡ none
    → IsValid r
    → IsValid (register d factory r).1
unfolding register
registered-IsValid d factory r e v =
    rw (e, register)
      (record {
        ids = insert-IsKeyed d.id (new_registration d factory) r.by_id v.ids;
        dependencies = elim (Bool-cases (is_empty d.depends_on)) [
          | inl none_needed ↦ rw none_needed v.dependencies
          | inr needed ↦ rw needed (insert-IsKeyed d.id d.depends_on r.dependencies v.dependencies)
        ];
        dependent = λ id. ground (
          arith,
          v.dependent id,
          keys-insert d.id id (new_registration d factory) r.by_id,
          keys-insert d.id id d.depends_on r.dependencies,
        );
        provider = λ capability id. ground (
          arith,
          v.provider capability id,
          keys-insert d.id id (new_registration d factory) r.by_id,
          eq_iff id d.id,
          listed-append_capabilities capability id d.id d.capabilities r.by_capability,
        );
      })

register-IsValid :
    (d : PluginDescriptor) (factory : ℕ) (r : Registry)
    → IsValid r
    → IsValid (register d factory r).1
unfolding register
register-IsValid d factory r v = elim (Option-cases (lookup d.id r.by_id)) [
  | inl e ↦ registered-IsValid d factory r e v
  | inr (reg, e) ↦ rw (e, register) v
]

-- Enable and Disable put a registration back under its own id.
restored-IsValid :
    (id : String) (reg : Registration) (r : Registry)
    → IsValid r
    → 0 < count id (keys r.by_id)
    → IsValid (record r { by_id = insert id reg r.by_id })
restored-IsValid id reg r v present = record {
  ids = insert-IsKeyed id reg r.by_id v.ids;
  dependencies = v.dependencies;
  dependent = λ x. ground (arith, v.dependent x, keys-insert id x reg r.by_id, eq_iff x id);
  provider = λ capability x.
      ground (arith, v.provider capability x, keys-insert id x reg r.by_id, eq_iff x id);
}

found_key {ℓ} :
    {V : Type ℓ} (id : String) (m : Dict V) (value : V)
    → lookup id m ≡ some value
    → 0 < count id (keys m)
unfolding lookup keys count
found_key id [] value e = ground arith
found_key id ((name, old) ∷ more) value e =
    ground (arith, found_key id more value, eq_iff id name, eq_iff name id)

set_enabled-IsValid :
    (on : Bool) (id : String) (r : Registry) → IsValid r → IsValid (set_enabled on id r).1
unfolding set_enabled
set_enabled-IsValid on id r v = elim (Option-cases (lookup id r.by_id)) [
  | inl e ↦ rw (e, set_enabled) v
  | inr (reg, e) ↦
      rw (e, set_enabled)
        (restored-IsValid id (record reg { enabled = on }) r v (found_key id r.by_id reg e))
]

perform-IsValid : (call : Call) (r : Registry) → IsValid r → IsValid (perform call r).1
unfolding perform enable disable
perform-IsValid (registers d factory) r v = register-IsValid d factory r v
perform-IsValid (enables id) r v = set_enabled-IsValid true id r v
perform-IsValid (disables id) r v = set_enabled-IsValid false id r v

empty-IsValid : IsValid empty_registry
unfolding listed lookup keys count
empty-IsValid = record {
  ids = record { once = λ key. ground arith };
  dependencies = record { once = λ key. ground arith };
  dependent = λ id h. h;
  provider = λ capability id h. h;
}

pub kept-IsValid : (calls : List Call) (r : Registry) → IsValid r → IsValid (set_up calls r)
unfolding set_up
kept-IsValid [] r v = v
kept-IsValid (call ∷ calls) r v = kept-IsValid calls _ (perform-IsValid call r v)

-- After any calls of Register, Enable and Disable on a new registry, each id has one registration
-- and one list of dependencies, and the plugins that depend or provide are registered.
pub set_up-IsValid : (calls : List Call) → IsValid (set_up calls empty_registry)
set_up-IsValid calls = kept-IsValid calls empty_registry empty-IsValid

performed-dependents : (call : Call) (r : Registry) → ((perform call r).1).dependents ≡ r.dependents
unfolding perform register enable disable set_enabled
performed-dependents (registers d factory) r = ground arith
performed-dependents (enables id) r = ground arith
performed-dependents (disables id) r = ground arith

pub set_up-dependents :
    (calls : List Call) (r : Registry) → (set_up calls r).dependents ≡ r.dependents
unfolding set_up
set_up-dependents [] r = refl
set_up-dependents (call ∷ calls) r =
    set_up-dependents calls (perform call r).1 ∙ performed-dependents call r
