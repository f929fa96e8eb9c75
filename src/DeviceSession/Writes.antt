-- ===== src/DeviceSession/Writes.antt =====
-- `write`, `enqueue` and `connectionToken` of frontend/src/lib/device-session.ts. The GBK table of the
-- browser is a parameter.
use friendly_ai_explorer.Common.{
  ◌==◌, if◌then◌else◌, Bytes, ℕ, suc, Bool, true, false, not, ◌&&◌, Option, none, some, List, [],
  ◌∷◌, ◌++◌,
}
use friendly_ai_explorer.SerialText.{SendEncoding, utf_8, encode_serial_text}
use friendly_ai_explorer.DeviceSession.State.{
  DeviceSession, ConnectionKind, serial, remote, Paste, is_connected,
}
use friendly_ai_explorer.DeviceSession.View.{cancel_paste}

unfoldable pub connection_token : DeviceSession → ℕ × ℕ
connection_token s = (s.generation, s.transport_version)

unfoldable pub same_token : ℕ × ℕ → ℕ × ℕ → Bool
same_token (g, v) (g', v') = g == g' && v == v'

unfoldable pub same_id : Option ℕ → Option ℕ → Bool
same_id none none = true
same_id (some a) (some b) = a == b
same_id _ _ = false

unfoldable pub add_work : Bytes → DeviceSession → DeviceSession
add_work bytes s = record s {
  queue =
      s.queue
      ++ (record { id = s.supply; bytes = bytes; generation = s.generation; writer = s.writer }
          ∷ []);
  supply = suc s.supply;
}

unfoldable pub enqueue_bytes : Option Bytes → DeviceSession → Option DeviceSession
enqueue_bytes none s = none
enqueue_bytes (some bytes) s = some (add_work bytes s)

-- `none` is a rejected promise: the session is offline, or the text cannot be encoded.
unfoldable pub enqueue : Option Bytes → DeviceSession → Option DeviceSession
enqueue bytes s = if not (is_connected s.state.status) then none else enqueue_bytes bytes s

unfoldable pub is_pasting : Option Paste → Bool
is_pasting none = false
is_pasting (some p) = true

-- `this.kind === "serial" ? this.sendEncoding : "utf-8"`
unfoldable pub encoding_of : ConnectionKind → SendEncoding → SendEncoding
encoding_of serial encoding = encoding
encoding_of remote encoding = utf_8

unfoldable pub encode : (ℕ → ℕ → Option (List ℕ)) → List ℕ → DeviceSession → Option Bytes
encode table text s = encode_serial_text table text (encoding_of s.kind s.send_encoding)

-- `data === "\\x03"`
unfoldable pub is_interrupt : List ℕ → Bool
is_interrupt (c ∷ []) = c == 3
is_interrupt _ = false

unfoldable pub or_same : DeviceSession → Option DeviceSession → DeviceSession
or_same s none = s
or_same s (some s') = s'

-- `write` of bytes, as a remote control's commands are. `onTransmit`, which tells the caller that its
-- write is handed to the writer, is left out.
unfoldable pub write_bytes : Bytes → DeviceSession → DeviceSession
write_bytes bytes s = if is_pasting s.paste then s else or_same s (enqueue (some bytes) s)

-- `write` of a text: the session afterwards, whether or not the promise was rejected.
unfoldable pub write : (ℕ → ℕ → Option (List ℕ)) → List ℕ → DeviceSession → DeviceSession
write table text s =
    let s1 = cancel_paste s in
    if is_interrupt text
    then or_same s1 (enqueue (encode table text s1) s1)
    else if is_pasting s.paste
    then s
    else or_same s (enqueue (encode table text s) s)
