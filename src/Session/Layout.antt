-- ===== src/Session/Layout.antt =====
-- The keys of the stores: KeyLayout of pkg/session/session.go.
use Prim.Native.String.{◌++◌}
use accessgate.Base.{String, ◌==◌, if◌then◌else◌}
use accessgate.Base.Int.{ℤ, pos}

pub record KeyLayout : Type 0 where
  pub session_prefix : String
  pub pkce_prefix : String
  pub refresh_lock_prefix : String
  pub revoked_prefix : String
  pub replay_prefix : String
  pub session_ttl_seconds : ℤ
  pub pkce_ttl_seconds : ℤ
  pub refresh_lock_ttl_seconds : ℤ

abbrev pub default_key_layout : KeyLayout
default_key_layout = record {
  session_prefix = "auth:session:";
  pkce_prefix = "auth:pkce:";
  refresh_lock_prefix = "auth:refresh_lock:";
  revoked_prefix = "auth:revoked:";
  replay_prefix = "auth:replay:";
  session_ttl_seconds = pos 36000;
  pkce_ttl_seconds = pos 300;
  refresh_lock_ttl_seconds = pos 15;
}

unfoldable pub session_key : KeyLayout → String → String
session_key k id = k.session_prefix ++ id

unfoldable pub pkce_key : KeyLayout → String → String
pkce_key k state = k.pkce_prefix ++ state

unfoldable pub refresh_lock_key : KeyLayout → String → String
refresh_lock_key k id = k.refresh_lock_prefix ++ id

unfoldable pub revoked_key : KeyLayout → String → String
revoked_key k id = (if k.revoked_prefix == "" then "auth:revoked:" else k.revoked_prefix) ++ id

unfoldable pub replay_key : KeyLayout → String → String
replay_key k key = (if k.replay_prefix == "" then "auth:replay:" else k.replay_prefix) ++ key
