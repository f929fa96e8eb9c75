-- ===== src/Common/Words.antt =====
-- Bytes, and the 32-bit words of a `DataView` in little-endian order.
use Prim.Native.Nat.{ℕ, ◌+◌, ◌*◌, ◌/◌, ◌%◌, ◌<◌}
use mathlib.Core.List.{List, [], ◌∷◌}
use friendly_ai_explorer.Common.Lists.{get_or}

abbrev pub Bytes : Type 0
Bytes = List ℕ

abbrev pub IsByte : ℕ → Type 0
IsByte b = b < 256

-- `setUint32(0, n, true)` into four bytes; it keeps `n` modulo 2^32.
abbrev pub le32 : ℕ → Bytes
le32 n = n % 256 ∷ n / 256 % 256 ∷ n / 65536 % 256 ∷ n / 16777216 % 256 ∷ []

-- `getUint32(off, true)`. A byte past the end reads as 0 here; the callers check the length first.
abbrev pub get_u32 : Bytes → ℕ → ℕ
get_u32 bytes off =
    get_or bytes off 0
    + get_or bytes (off + 1) 0 * 256
    + get_or bytes (off + 2) 0 * 65536
    + get_or bytes (off + 3) 0 * 16777216
