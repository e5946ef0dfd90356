-- ===== src/Plugin/Kept.antt =====
-- Register, Enable and Disable of internal/plugin/registry.go never replace a registration.
use mathlib.Core.Option.{some-injective}
use accessgate.Base.{
  ℕ, Bool, true, false, String, ◌==◌, ◌≡◌, ◌∙◌, refl, some, List, [], ◌∷◌, arith, eq_iff,
  Option-cases, Bool-cases, inl, inr, sym, ap,
}
use accessgate.Base.Dict.{lookup, insert, lookup-insert}
use accessgate.Plugin.{
  Call, registers, enables, disables, perform, set_up, empty_registry, new_registration,
  set_enabled, PluginDescriptor, Registry, Registration, register, enable, disable,
}
use accessgate.Plugin.Valid.{IsValid, kept-IsValid, set_up-IsValid}

-- The id is registered, with the descriptor and the factory of `reg`.
pub record IsHeld (id : String) (reg : Registration) (r : Registry) : Type 0 where
  pub current : Registration
  pub found : lookup id r.by_id ≡ some current
  pub descriptor : current.descriptor ≡ reg.descriptor
  pub factory : current.factory ≡ reg.factory

register-IsHeld :
    (id : String) (reg : Registration) (d : PluginDescriptor) (factory : ℕ) (r : Registry)
    → IsHeld id reg r
    → IsHeld id reg (register d factory r).1
unfolding register
register-IsHeld id reg d factory r h = elim (Option-cases (lookup d.id r.by_id)) [
  | inr (other, e) ↦ rw (e, register) h
  | inl e ↦
      rw (e, register)
        (record {
          current = h.current;
          found = ground (
            arith,
            h.found,
            eq_iff d.id id,
            lookup-insert d.id id (new_registration d factory) r.by_id,
          );
          descriptor = h.descriptor;
          factory = h.factory;
        })
]

restored-IsHeld :
    (id : String) (reg : Registration) (on : Bool) (other : String) (reg' : Registration)
    (r : Registry)
    → lookup other r.by_id ≡ some reg'
    → IsHeld id reg r
    → IsHeld id reg (record r { by_id = insert other (record reg' { enabled = on }) r.by_id })
restored-IsHeld id reg on other reg' r e h =
    let put = lookup-insert other id (record reg' { enabled = on }) r.by_id in
    elim (Bool-cases (other == id)) [
      | inr apart ↦ record {
        current = h.current;
        found = rw (put, apart) h.found;
        descriptor = h.descriptor;
        factory = h.factory;
      }
      | inl equal ↦
          let named : other ≡ id = (eq_iff other id).0 equal in
          let same : reg' ≡ h.current =
            some-injective reg' h.current (sym e ∙ ap (λ k. lookup k r.by_id) named ∙ h.found) in
          record {
            current = record reg' { enabled = on };
            found = rw (put, equal) refl;
            descriptor = ap (λ x. x.descriptor) same ∙ h.descriptor;
            factory = ap (λ x. x.factory) same ∙ h.factory;
          }
    ]

set_enabled-IsHeld :
    (id : String) (reg : Registration) (on : Bool) (other : String) (r : Registry)
    → IsHeld id reg r
    → IsHeld id reg (set_enabled on other r).1
unfolding set_enabled
set_enabled-IsHeld id reg on other r h = elim (Option-cases (lookup other r.by_id)) [
  | inl e ↦ rw (e, set_enabled) h
  | inr (reg', e) ↦ rw (e, set_enabled) (restored-IsHeld id reg on other reg' r e h)
]

perform-IsHeld :
    (id : String) (reg : Registration) (call : Call) (r : Registry)
    → IsHeld id reg r
    → IsHeld id reg (perform call r).1
unfolding perform enable disable
perform-IsHeld id reg (registers d factory) r h = register-IsHeld id reg d factory r h
perform-IsHeld id reg (enables other) r h = set_enabled-IsHeld id reg true other r h
perform-IsHeld id reg (disables other) r h = set_enabled-IsHeld id reg false other r h

kept-IsHeld :
    (id : String) (reg : Registration) (calls : List Call) (r : Registry)
    → IsHeld id reg r
    → IsHeld id reg (set_up calls r)
unfolding set_up
kept-IsHeld id reg [] r h = h
kept-IsHeld id reg (call ∷ calls) r h =
    kept-IsHeld id reg calls (perform call r).1 (perform-IsHeld id reg call r h)

-- A plugin that some calls of Register, Enable and Disable on a new registry have registered keeps
-- its descriptor and its factory through any further calls, also of Register under the same id; and
-- the registry they leave has one registration and one list of dependencies for an id, and
-- registered dependents and providers only.
pub set_up-IsHeld :
    (calls more : List Call) (id : String) (reg : Registration)
    → lookup id (set_up calls empty_registry).by_id ≡ some reg
    → IsHeld id reg (set_up more (set_up calls empty_registry))
      × IsValid (set_up more (set_up calls empty_registry))
set_up-IsHeld calls more id reg e =
    let before = set_up calls empty_registry in
    (
      kept-IsHeld id reg more before
          (record { current = reg; found = e; descriptor = refl; factory = refl }),
      kept-IsValid more before (set_up-IsValid calls),
    )
