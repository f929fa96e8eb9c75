-- ===== src/AdbShell.antt =====
-- frontend/src/lib/adb-shell-protocol.ts: the framing of the ADB shell v2 service. The callbacks
-- `output` and `exit` are the events that a push returns; `pending` is the decoder's state.
pub mod Frames
pub mod Stream
pub mod Examples
use friendly_ai_explorer.Common.{
  ltb, leb, ◌==◌, if◌then◌else◌, within, ltb→lt, lt→ltb, leb→le, ==_iff, Bool-cases, Option-cases,
  length, take, drop, get_elem?, get_or, length-append, length-take, length-drop, take-append-drop,
  take-length_append, drop-length_append, take-append_le, drop-append_le, get_or-append_lt,
  get_elem?-below, get_elem?-above, All, All-append, flatten-append, any, includes, ℤ, Number,
  is_integer, number_below, number_above, natural, pos, negsuc, integer, fractional, Bytes, IsByte,
  le32, get_u32, ℕ, zero, suc, ◌+◌, ◌-◌, ◌*◌, ◌/◌, ◌%◌, ◌^◌, ◌≤◌, ◌<◌, min, max, pred, bit_and,
  bit_or, bit_xor, ◌≡◌, refl, sym, ap, ap₂, subst, ◌∙◌, ◌≡⟨◌⟩◌, ◌∎, ◌≢◌, ◌↔◌, ◌⊎◌, inl, inr, Bool,
  true, false, not, ◌&&◌, ◌||◌, Option, none, some, List, [], ◌∷◌, ◌++◌, map, append-nil,
  append_assoc, arith, flatten,
}

-- `shellPacket`: one byte of identifier, the length in four, the data.
pub shell_packet : ℕ → Bytes → Bytes
shell_packet id payload = id % 256 ∷ (le32 (length payload) ++ payload)

pub data ShellEvent : Type 0 where
  output : Bytes → ShellEvent
  exit : ShellEvent

-- What a call of `push` does: the callbacks that it makes, and the new `pending`, or the error
-- "Invalid ADB shell v2 frame", which leaves `pending` as it was.
pub data Pushed : Type 0 where
  pushed : List ShellEvent → Bytes → Pushed
  failed : List ShellEvent → Pushed

-- What the loop finds at `offset`.
pub data Frame : Type 0 where
  partial : Frame
  invalid : Frame
  frame : ℕ → Bytes → Bytes → Frame

abbrev pub max_payload : ℕ
max_payload = 1048576

pub next_frame : Bytes → Frame
next_frame buffer =
    let id = get_or buffer 0 0 in
    let size = get_u32 buffer 1 in
    if ltb (length buffer) 5
    then partial
    else if ltb max_payload size || not (includes (1 ∷ 2 ∷ 3 ∷ []) id)
    then invalid
    else if ltb (length buffer) (size + 5)
    then partial
    else frame id (take size (drop 5 buffer)) (drop (size + 5) buffer)

pub event : ℕ → Bytes → ShellEvent
event id payload = if id == 3 then exit else output payload

pub emit : ShellEvent → Pushed → Pushed
emit e (pushed es pending) = pushed (e ∷ es) pending
emit e (failed es) = failed (e ∷ es)

-- `while (buffer.length - offset >= 5)`, on what is left of the buffer.
pub drain : ℕ → Bytes → Pushed
drain zero buffer = pushed [] buffer
drain (suc fuel) buffer = elim (next_frame buffer) [
  | partial ↦ pushed [] buffer
  | invalid ↦ failed []
  | frame id payload rest ↦ emit (event id payload) (drain fuel rest)
]

-- A frame takes five bytes at least, so the buffer's length is fuel enough.
pub push : Bytes → Bytes → Pushed
push pending chunk = drain (length (pending ++ chunk)) (pending ++ chunk)

pub append_events : List ShellEvent → Pushed → Pushed
append_events es (pushed fs pending) = pushed (es ++ fs) pending
append_events es (failed fs) = failed (es ++ fs)

-- One `push` after another, up to the first error.
pub push_all : Bytes → List Bytes → Pushed
push_all pending [] = pushed [] pending
push_all pending (chunk ∷ chunks) = elim (push pending chunk) [
  | pushed es pending' ↦ append_events es (push_all pending' chunks)
  | failed es ↦ failed es
]
