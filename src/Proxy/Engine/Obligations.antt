-- ===== src/Proxy/Engine/Obligations.antt =====
-- The headers that obligations set, in internal/authz/engine.go.
use accessgate.Base.{String, ◌==◌, ◌≡◌, true, [], ◌∷◌, All, Bool-cases, inl, inr}
use accessgate.Base.Text.{has_prefix, is_one_line, strip_line_breaks-is_one_line}
use accessgate.Base.Dict.{Dict, insert}
use accessgate.Claims.{Value, text}
use accessgate.Proxy.Engine.{header_name, apply_obligation, apply_obligations}

-- Neither the name nor the value breaks the line.
abbrev pub IsOneLine : String × String → Type 0
IsOneLine (k, v) = (is_one_line k ≡ true) × (is_one_line v ≡ true)

insert-IsOneLine :
    (k v : String) (h : Dict String)
    → IsOneLine (k, v)
    → All IsOneLine h
    → All IsOneLine (insert k v h)
unfolding insert
insert-IsOneLine k v [] a b = (a, tt)
insert-IsOneLine k v ((j, w) ∷ h) a (b, bs) = elim (Bool-cases (j == k)) [
  | inl e ↦ rw (e, insert) (a, bs)
  | inr e ↦ rw (e, insert) (b, insert-IsOneLine k v h a bs)
]

name-is_one_line : (k : String) → is_one_line (header_name k) ≡ true
unfolding header_name
name-is_one_line k = strip_line_breaks-is_one_line _

apply_obligation-IsOneLine :
    (k : String) (v : Value) (h : Dict String)
    → All IsOneLine h
    → All IsOneLine (apply_obligation k v h)
unfolding apply_obligation
apply_obligation-IsOneLine k (text v) h a = elim (Bool-cases (has_prefix k "set_header_")) [
  | inl e ↦
      rw (e, apply_obligation)
        (insert-IsOneLine _ _ h (name-is_one_line k, strip_line_breaks-is_one_line v) a)
  | inr e ↦ rw (e, apply_obligation) a
]
apply_obligation-IsOneLine k _ h a = a

-- If no header of the decision breaks its line, no header does once the policy's obligations are
-- applied, whatever names and values they give: they cannot inject a header.
pub apply_obligations-IsOneLine :
    (obligations : Dict Value) (h : Dict String)
    → All IsOneLine h
    → All IsOneLine (apply_obligations obligations h)
unfolding apply_obligations
apply_obligations-IsOneLine [] h a = a
apply_obligations-IsOneLine ((k, v) ∷ more) h a =
    apply_obligations-IsOneLine more _ (apply_obligation-IsOneLine k v h a)
