-- ===== src/Session/Apart.antt =====
-- The key spaces of one connector (KeyLayout of internal/auth/config/config.go) do not overlap.
use Prim.Native.Char.{Char, code}
use Prim.Native.String.{◌++◌}
use text.Mathlib.TextLemmas.{append_assoc, cons-append}
use accessgate.Base.{
  eq_iff, String, ◌==◌, ◌≡◌, refl, sym, ap, ◌∙◌, Bool, Option, none, some, if◌then◌else◌, true,
  false, eqb, Bool-cases, inl, inr,
}
use accessgate.Base.Text.{strip_prefix?, strip_prefix?-append}
use accessgate.Session.Layout.{
  KeyLayout, session_key, pkce_key, refresh_lock_key, revoked_key, replay_key,
}
use accessgate.Auth.Service.{ConnectorConfig, or_default}
use accessgate.Auth.Settings.Defaults.{connector_key_layout}

-- What a key is for.
pub data Purpose : Type 0 where
  for_session for_pkce for_lock for_revoked for_replay : Purpose

unfoldable pub key_of : KeyLayout → Purpose → String → String
unfolding session_key pkce_key refresh_lock_key revoked_key replay_key
key_of k for_session x = session_key k x
key_of k for_pkce x = pkce_key k x
key_of k for_lock x = refresh_lock_key k x
key_of k for_revoked x = revoked_key k x
key_of k for_replay x = replay_key k x

abbrev word : Purpose → String
word for_session = ":session:"
word for_pkce = ":pkce:"
word for_lock = ":refresh_lock:"
word for_revoked = ":revoked:"
word for_replay = ":replay:"

-- `else_read` tries the next purpose.
try_word : Purpose → String → Option (Purpose × String) → Option (Purpose × String)
try_word a s else_read = elim (strip_prefix? (word a) s) [ none ↦ else_read | some x ↦ some (a, x) ]

unfoldable read_word : String → Option (Purpose × String)
unfolding try_word
read_word s = try_word for_session s (
    try_word for_pkce s (try_word for_lock s (try_word for_revoked s (try_word for_replay s none))))

-- The purpose of a key behind the connector's prefix, and what the key names.
unfoldable pub read_key : String → String → Option (Purpose × String)
unfolding read_word
read_key prefix key = elim (strip_prefix? (or_default prefix "auth") key) [
  | none ↦ none
  | some s ↦ read_word s
]

-- The texts differ at some place that both have.
differ : String → String → Bool
differ String.[] q = false
differ (String.◌∷◌ c p) String.[] = false
differ (String.◌∷◌ c p) (String.◌∷◌ d q) =
    let rest = differ p q in if eqb (code c) (code d) then rest else true

strip_prefix?-differ : (p q x : String) → differ p q ≡ true → strip_prefix? p (q ++ x) ≡ none
unfolding strip_prefix? differ
strip_prefix?-differ String.[] q x h = cc
strip_prefix?-differ (String.◌∷◌ c p) String.[] x h = cc
strip_prefix?-differ (String.◌∷◌ c p) (String.◌∷◌ d q) x h =
    elim (Bool-cases (eqb (code c) (code d))) [
      | inl same ↦
          rw cons-append (rw (same, strip_prefix?) (strip_prefix?-differ p q x (rw same at h)))
      | inr other ↦ rw cons-append (rw (other, strip_prefix?) refl)
    ]

tried_found :
    (a : Purpose) (x : String) (else_read : Option (Purpose × String))
    → try_word a (word a ++ x) else_read ≡ some (a, x)
unfolding try_word
tried_found a x else_read = rw (strip_prefix?-append (word a) x, try_word) refl

tried_other :
    (a b : Purpose) (x : String) (else_read : Option (Purpose × String))
    → differ (word a) (word b) ≡ true
    → try_word a (word b ++ x) else_read ≡ else_read
unfolding try_word
tried_other a b x else_read h = rw (strip_prefix?-differ (word a) (word b) x h, try_word) refl

read_word-word : (a : Purpose) (x : String) → read_word (word a ++ x) ≡ some (a, x)
unfolding read_word differ
read_word-word for_session x = tried_found for_session x _
read_word-word for_pkce x = tried_other for_session for_pkce x _ refl ∙ tried_found for_pkce x _
read_word-word for_lock x =
    tried_other for_session for_lock x _ refl
    ∙ tried_other for_pkce for_lock x _ refl
    ∙ tried_found for_lock x _
read_word-word for_revoked x =
    tried_other for_session for_revoked x _ refl
    ∙ tried_other for_pkce for_revoked x _ refl
    ∙ tried_other for_lock for_revoked x _ refl
    ∙ tried_found for_revoked x _
read_word-word for_replay x =
    tried_other for_session for_replay x _ refl
    ∙ tried_other for_pkce for_replay x _ refl
    ∙ tried_other for_lock for_replay x _ refl
    ∙ tried_other for_revoked for_replay x _ refl
    ∙ tried_found for_replay x _

filled : (c : Char) (s : String) → (String.◌∷◌ c s == "") ≡ false
filled c s = elim (Bool-cases (String.◌∷◌ c s == "")) [
  | inl e ↦ absurd (cc ((eq_iff _ _).0 e))
  | inr e ↦ e
]

word_behind : (p : String) (a : Purpose) → ((p ++ word a) == "") ≡ false
word_behind String.[] for_session = refl
word_behind String.[] for_pkce = refl
word_behind String.[] for_lock = refl
word_behind String.[] for_revoked = refl
word_behind String.[] for_replay = refl
word_behind (String.◌∷◌ c p) a = rw cons-append (filled c (p ++ word a))

key_of-word :
    (c : ConnectorConfig) (a : Purpose) (x : String)
    → key_of (connector_key_layout c) a x
      ≡ or_default c.session_redis_prefix "auth" ++ (word a ++ x)
unfolding key_of connector_key_layout
key_of-word c for_session x = append_assoc _ _ x
key_of-word c for_pkce x = append_assoc _ _ x
key_of-word c for_lock x = append_assoc _ _ x
key_of-word c for_revoked x =
    rw (word_behind (or_default c.session_redis_prefix "auth") for_revoked) (append_assoc _ _ x)
key_of-word c for_replay x =
    rw (word_behind (or_default c.session_redis_prefix "auth") for_replay) (append_assoc _ _ x)

read_key-key_of :
    (c : ConnectorConfig) (a : Purpose) (x : String)
    → read_key c.session_redis_prefix (key_of (connector_key_layout c) a x) ≡ some (a, x)
unfolding read_key
read_key-key_of c a x = rw (key_of-word c a x) (
    rw (strip_prefix?-append (or_default c.session_redis_prefix "auth") (word a ++ x), read_key)
      (read_word-word a x))

read_same :
    (a b : Purpose) (x y : String)
    → Path (Option (Purpose × String)) (some (a, x)) (some (b, y))
    → (a ≡ b) × (x ≡ y)
read_same a b x y same = (cc, cc)

-- Two Redis keys of one connector are equal only if they serve the same purpose (a session, a PKCE
-- state, a refresh lock, a revocation or a replay record) and name the same thing.
pub key_of-apart :
    (c : ConnectorConfig) (a b : Purpose) (x y : String)
    → key_of (connector_key_layout c) a x ≡ key_of (connector_key_layout c) b y
    → (a ≡ b) × (x ≡ y)
key_of-apart c a b x y same = read_same a b x y (
    sym (read_key-key_of c a x) ∙ ap (read_key c.session_redis_prefix) same ∙ read_key-key_of c b y)
