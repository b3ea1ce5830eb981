-- ===== src/Base/Host.antt =====
-- What the code takes from Go's `crypto/sha256`, `encoding/hex` and `time`: their results are not
-- interpreted, so every statement holds of any two functions of these types.
use Prim.Native.Nat.{ℕ}
use mathlib.Core.Bool.{Bool}
use wizpay_mcp.Base.Texts.{Text}
use wizpay_mcp.Base.Tests.{Time}

pub record Platform : Type 0 where
  -- the lower-case hexadecimal SHA-256 of a byte string
  pub sha256_hex : Text → Text
  -- `t.UTC().Format(time.RFC3339Nano)`
  pub rfc3339_nano : Time → Text

-- What the code takes from go-ethereum and from Go's tables of Unicode.
pub record Libraries : Type 0 where
  -- `common.IsHexAddress`
  pub is_hex_address : Text → Bool
  -- `unicode.ToLower`, of a code point that is not ASCII
  pub lower_rune : ℕ → ℕ
