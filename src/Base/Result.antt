-- ===== src/Base/Result.antt =====
-- A value or a Go error, which is its message.
use Prim.Native.String.{String}

pub data Result {ℓ} (A : Type ℓ) : Type ℓ where
  ok : A → Result A
  err : String → Result A
