-- ===== src/AdbUsb/Message/Bounds.antt =====
-- What `readMsg` guarantees whatever the USB device returns.
use friendly_ai_explorer.Common.{
  length, length-append, Bytes, get_u32, ℕ, zero, suc, ◌+◌, ◌-◌, ◌≤◌, ◌<◌, ◌≡◌, ap, ◌⊎◌, inr, none,
  some, [], ◌∷◌, ◌++◌, arith,
}
use friendly_ai_explorer.AdbUsb.Message.{
  Message, Usb, InResult, bad_status, received, ReadError, max_data, magic, read_pieces, take_piece,
}

module _ (usb : Usb) where
  open usb use {Dev}

  take_piece-inr :
      (r : InResult × Dev) (next : Bytes → Dev → (ReadError ⊎ Bytes) × Dev) (c : Bytes) (d : Dev)
      → take_piece usb r next ≡ (inr c, d)
      → (piece : Bytes) × (d' : Dev) × (0 < length piece) × (next piece d' ≡ (inr c, d))
  unfolding take_piece
  take_piece-inr (bad_status, dev) next c d e = absurd (cc (ap (λ p. p.0) e))
  take_piece-inr (received none, dev) next c d e = absurd (cc (ap (λ p. p.0) e))
  take_piece-inr (received (some []), dev) next c d e = absurd (cc (ap (λ p. p.0) e))
  take_piece-inr (received (some (b ∷ bs)), dev) next c d e = (b ∷ bs, dev, omega arith, e)

  -- With fuel for the bytes that are missing, the loop ends with an error or with all of them.
  pub read_pieces_complete :
      (fuel size remaining : ℕ) (dev d : Dev) (chunks c : Bytes)
      → remaining ≤ fuel
      → read_pieces usb fuel size dev remaining chunks ≡ (inr c, d)
      → length chunks + remaining ≤ length c
  unfolding read_pieces
  read_pieces_complete fuel size zero dev d chunks c h e = ground arith
  read_pieces_complete zero size (suc remaining) dev d chunks c h e = absurd (omega arith)
  read_pieces_complete (suc fuel) size (suc remaining) dev d chunks c h e =
      let (piece, d', long, e') = take_piece-inr _ _ c d e in
      omega (
        arith,
        length-append chunks piece,
        read_pieces_complete fuel size (suc remaining - length piece) d' d (chunks ++ piece) c
            (omega arith) e',
      )

  -- The header that a message was read from.
  pub record Describes (hdr : Bytes) (m : Message) : Type 0 where
    pub long : 24 ≤ length hdr
    pub cmd_read : m.cmd ≡ get_u32 hdr 0
    pub arg0_read : m.arg0 ≡ get_u32 hdr 4
    pub arg1_read : m.arg1 ≡ get_u32 hdr 8
    pub magic_checked : get_u32 hdr 20 ≡ magic m.cmd
    pub whole : length m.payload ≡ get_u32 hdr 12
    pub bounded : length m.payload ≤ max_data
