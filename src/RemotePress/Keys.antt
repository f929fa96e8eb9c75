-- ===== src/RemotePress/Keys.antt =====
-- The table of frontend/src/lib/remote-keys.ts. An id that no row has is like a row without a code.
use friendly_ai_explorer.Common.{Bytes, ℕ, Bool, true, false, Option, none, some, [], ◌∷◌}

pub data RemoteKey : Type 0 where
  power input profile voice settings up right down left ok back home tv : RemoteKey
  volume_up volume_down channel_up channel_down live_tv red blue yellow green : RemoteKey

unfoldable pub key_code : RemoteKey → Option ℕ
key_code settings = some 0x0a
key_code up = some 0x00
key_code right = some 0x02
key_code down = some 0x01
key_code left = some 0x03
key_code ok = some 0x1f
key_code back = some 0x1c
key_code home = some 0x0c
key_code volume_up = some 0x58
key_code volume_down = some 0x5d
key_code _ = none

unfoldable pub command_of : Option ℕ → Option Bytes
command_of none = none
command_of (some code) = some (0xfa ∷ 0xf1 ∷ 0x08 ∷ 0xf7 ∷ code ∷ [])

unfoldable pub remote_command : RemoteKey → Option Bytes
remote_command key = command_of (key_code key)

unfoldable pub is_repeatable : RemoteKey → Bool
is_repeatable up = true
is_repeatable down = true
is_repeatable left = true
is_repeatable right = true
is_repeatable volume_up = true
is_repeatable volume_down = true
is_repeatable _ = false
