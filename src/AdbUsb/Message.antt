-- ===== src/AdbUsb/Message.antt =====
-- `encodeMsg`, `sendPacket` and `readMsg`. The USB device is a parameter: what its two transfers
-- return, and the state that they leave it in.
pub mod Pipe
pub mod RoundTrip
pub mod Bounds
use friendly_ai_explorer.Common.{
  ltb, leb, ◌==◌, if◌then◌else◌, within, ltb→lt, lt→ltb, leb→le, ==_iff, Bool-cases, Option-cases,
  length, take, drop, replicate, set, get_elem?, get_or, length-append, length-take, length-drop,
  take-append-drop, take-length_append, drop-length_append, take-append_le, drop-append_le,
  get_or-append_lt, get_elem?-below, get_elem?-above, length-replicate, replicate-add, set-append,
  All, Any, All-append, flatten-append, any, includes, ℤ, Number, is_integer, number_below,
  number_above, natural, pos, negsuc, integer, fractional, Bytes, IsByte, le32, get_u32, ℕ, zero,
  suc, ◌+◌, ◌-◌, ◌*◌, ◌/◌, ◌%◌, ◌^◌, ◌≤◌, ◌<◌, min, max, pred, bit_and, bit_or, bit_xor, ◌≡◌, refl,
  sym, ap, ap₂, subst, ◌∙◌, ◌≡⟨◌⟩◌, ◌∎, ◌≢◌, ◌↔◌, ◌⊎◌, inl, inr, Bool, true, false, not, ◌&&◌, ◌||◌,
  Option, none, some, List, [], ◌∷◌, ◌++◌, map, append-nil, append_assoc, arith, flatten,
}

abbrev pub max_data : ℕ
max_data = 262144

pub record Message : Type 0 where
  pub cmd : ℕ
  pub arg0 : ℕ
  pub arg1 : ℕ
  pub payload : Bytes

-- The result of `transferIn`: a status other than "ok", or a `data` that may be missing.
pub data InResult : Type 0 where
  bad_status : InResult
  received : Option Bytes → InResult

pub record Usb : Type 1 where
  pub Dev : Type 0
  pub transfer_out : Dev → Bytes → Bool × Dev
  pub transfer_in : Dev → ℕ → InResult × Dev

pub data ReadError : Type 0 where
  header_read_failed : ReadError
  header_short : ReadError
  header_invalid : ReadError
  payload_read_failed : ReadError
  payload_incomplete : ReadError
  payload_overflow : ReadError

pub data Read : Type 0 where
  ok : Message → Read
  err : ReadError → Read

-- `data.reduce((sum, byte) => (sum + byte) >>> 0, 0)`
unfoldable pub checksum_onto : ℕ → Bytes → ℕ
checksum_onto sum [] = sum
checksum_onto sum (byte ∷ bytes) = checksum_onto ((sum + byte) % 4294967296) bytes

-- `(cmd ^ 0xffffffff) >>> 0`
abbrev pub magic : ℕ → ℕ
magic cmd = bit_xor cmd 0xffffffff % 4294967296

unfoldable pub header : Message → Bytes
header m =
    le32 m.cmd
    ++ (le32 m.arg0
        ++ (le32 m.arg1
            ++ (le32 (length m.payload)
                ++ (le32 (checksum_onto 0 m.payload) ++ le32 (magic m.cmd)))))

unfoldable pub encode_msg : Message → Bytes
encode_msg m = header m ++ m.payload

module _ (usb : Usb) where
  open usb use {Dev, transfer_out, transfer_in}

  -- `for (let off = 24; off < pkt.length; off += maxPacket)`, on what is left of the packet. The
  -- result says whether the loop ended with every write acknowledged; with no fuel it has not ended,
  -- as where `maxPacket` is 0.
  pub send_pieces : ℕ → ℕ → Dev → Bytes → Option Bool × Dev
  send_pieces fuel size dev [] = (some true, dev)
  send_pieces zero size dev (b ∷ bs) = (none, dev)
  send_pieces (suc fuel) size dev (b ∷ bs) =
      let (done, dev') = transfer_out dev (take size (b ∷ bs)) in
      let rest = send_pieces fuel size dev' (drop size (b ∷ bs)) in
      if done then rest else (some false, dev')

  pub send_packet : ℕ → Dev → Message → Option Bool × Dev
  send_packet size dev m =
      let pkt = encode_msg m in
      let (done, dev') = transfer_out dev (take 24 pkt) in
      if done
      then send_pieces (length (drop 24 pkt)) size dev' (drop 24 pkt)
      else (some false, dev')

  -- The checks of one payload transfer, and what is done with its bytes.
  pub take_piece :
      InResult × Dev → (Bytes → Dev → (ReadError ⊎ Bytes) × Dev) → (ReadError ⊎ Bytes) × Dev
  take_piece (bad_status, dev) next = (inl payload_read_failed, dev)
  take_piece (received none, dev) next = (inl payload_incomplete, dev)
  take_piece (received (some []), dev) next = (inl payload_incomplete, dev)
  take_piece (received (some (b ∷ bs)), dev) next = next (b ∷ bs) dev

  -- `while (remaining > 0)`. A transfer that returns more than was asked for ends the loop; then
  -- `data.set` throws, since the chunks do not fit.
  pub read_pieces : ℕ → ℕ → Dev → ℕ → Bytes → (ReadError ⊎ Bytes) × Dev
  read_pieces fuel size dev zero chunks = (inr chunks, dev)
  read_pieces zero size dev (suc remaining) chunks = (inr chunks, dev)
  read_pieces (suc fuel) size dev (suc remaining) chunks =
      take_piece (transfer_in dev (min (suc remaining) size))
        λ piece dev'. read_pieces fuel size dev' (suc remaining - length piece) (chunks ++ piece)

  -- `data.set(c, off)` for each chunk
  pub fill : Bytes → ℕ → ℕ → ℕ → (ReadError ⊎ Bytes) × Dev → Read × Dev
  fill hdr cmd arg0 dlen (inl e, dev) = (err e, dev)
  fill hdr cmd arg0 dlen (inr chunks, dev) =
      if ltb dlen (length chunks)
      then (err payload_overflow, dev)
      else (ok (record { cmd = cmd; arg0 = arg0; arg1 = get_u32 hdr 8; payload = chunks }), dev)

  pub read_body : ℕ → Dev → Bytes → Read × Dev
  read_body size dev hdr =
      let cmd = get_u32 hdr 0 in
      let arg0 = get_u32 hdr 4 in
      let dlen = get_u32 hdr 12 in
      if not (get_u32 hdr 20 == magic cmd) || ltb max_data dlen
      then (err header_invalid, dev)
      else fill hdr cmd arg0 dlen (read_pieces dlen size dev dlen [])

  pub take_header : InResult × Dev → (Bytes → Dev → Read × Dev) → Read × Dev
  take_header (bad_status, dev) next = (err header_read_failed, dev)
  take_header (received none, dev) next = (err header_short, dev)
  take_header (received (some hdr), dev) next =
      if ltb (length hdr) 24 then (err header_short, dev) else next hdr dev

  pub read_msg : ℕ → Dev → Read × Dev
  read_msg size dev = take_header (transfer_in dev 24) λ hdr dev'. read_body size dev' hdr
