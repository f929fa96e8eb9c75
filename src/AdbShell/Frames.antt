-- ===== src/AdbShell/Frames.antt =====
-- One step of the decoder: what more input changes, and what a packet decodes to.
use friendly_ai_explorer.Common.{
  length, drop, get_or, length-append, length-drop, take-length_append, drop-length_append,
  take-append_le, drop-append_le, get_or-append_lt, Bytes, le32, get_u32, ℕ, ◌+◌, ◌≤◌, ◌≡◌, ◌⊎◌,
  ◌++◌, arith,
}
use friendly_ai_explorer.AdbShell.{shell_packet, invalid, frame, max_payload, next_frame}

-- A frame is shorter than the buffer that it is taken from.
pub next_frame-shorter :
    (buffer : Bytes) {id : ℕ} {payload rest : Bytes}
    → next_frame buffer ≡ frame id payload rest
    → length rest + 5 ≤ length buffer
unfolding next_frame
next_frame-shorter buffer e = ground (arith, length-drop (get_u32 buffer 1 + 5) buffer)

same_id :
    (buffer more : Bytes) → 5 ≤ length buffer → get_or (buffer ++ more) 0 0 ≡ get_or buffer 0 0
same_id buffer more h = get_or-append_lt buffer more 0 0 (omega arith)

same_size :
    (buffer more : Bytes) → 5 ≤ length buffer → get_u32 (buffer ++ more) 1 ≡ get_u32 buffer 1
same_size buffer more h = omega (
  arith,
  get_or-append_lt buffer more 1 0 (omega arith),
  get_or-append_lt buffer more 2 0 (omega arith),
  get_or-append_lt buffer more 3 0 (omega arith),
  get_or-append_lt buffer more 4 0 (omega arith),
)

pub next_frame-append :
    (buffer more : Bytes) {id : ℕ} {payload rest : Bytes}
    → next_frame buffer ≡ frame id payload rest
    → next_frame (buffer ++ more) ≡ frame id payload (rest ++ more)
unfolding next_frame
next_frame-append buffer more e =
    let long : 5 ≤ length buffer = omega (arith, next_frame-shorter buffer e) in
    rw (same_id buffer more long, same_size buffer more long)
      (ground (
        arith,
        length-append buffer more,
        length-drop 5 buffer,
        drop-append_le 5 buffer more,
        take-append_le (get_u32 buffer 1) (drop 5 buffer) more,
        drop-append_le (get_u32 buffer 1 + 5) buffer more,
      ))

invalid-long : (buffer : Bytes) → next_frame buffer ≡ invalid → 5 ≤ length buffer
unfolding next_frame
invalid-long buffer e = ground arith

pub next_frame-append_invalid :
    (buffer more : Bytes) → next_frame buffer ≡ invalid → next_frame (buffer ++ more) ≡ invalid
unfolding next_frame
next_frame-append_invalid buffer more e =
    let long = invalid-long buffer e in
    rw (same_id buffer more long, same_size buffer more long)
      (ground (arith, length-append buffer more))

pub next_frame-shell_packet :
    (id : ℕ) (payload rest : Bytes)
    → (id ≡ 1) ⊎ (id ≡ 2) ⊎ (id ≡ 3)
    → length payload ≤ max_payload
    → next_frame (shell_packet id payload ++ rest) ≡ frame id payload rest
unfolding next_frame shell_packet
next_frame-shell_packet id payload rest known small =
    let size : get_u32 (le32 (length payload) ++ (payload ++ rest)) 0 ≡ length payload =
      omega arith in
    ground (
      arith,
      size,
      length-append payload rest,
      take-length_append payload rest,
      drop-length_append payload rest,
    )
