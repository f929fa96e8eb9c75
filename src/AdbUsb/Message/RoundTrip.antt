-- ===== src/AdbUsb/Message/RoundTrip.antt =====
-- What `sendPacket` writes, `readMsg` reads.
use friendly_ai_explorer.Common.{
  ltb, ◌==◌, length, take, drop, length-take, length-drop, take-append-drop, take-length_append,
  drop-length_append, Bytes, get_u32, ℕ, zero, suc, ◌-◌, ◌≤◌, ◌<◌, min, ◌≡◌, refl, sym, ap, ◌∙◌,
  inr, true, false, not, ◌||◌, some, List, [], ◌∷◌, ◌++◌, append-nil, append_assoc, arith,
}
use friendly_ai_explorer.AdbUsb.Message.{
  Message, ok, max_data, magic, header, encode_msg, send_pieces, send_packet, read_pieces,
  take_piece, take_header, fill, read_body, read_msg,
}
use friendly_ai_explorer.AdbUsb.Message.Pipe.{pipe_in-fits, pipe, pieces, wire}

send_pieces-pieces :
    (fuel size : ℕ) (packets : List Bytes) (bytes : Bytes)
    → 0 < size
    → length bytes ≤ fuel
    → send_pieces pipe fuel size packets bytes ≡ (some true, packets ++ pieces fuel size bytes)
unfolding send_pieces pieces
send_pieces-pieces fuel size packets [] p h = rw (append-nil packets)
send_pieces-pieces zero size packets (b ∷ bs) p h = absurd (omega arith)
send_pieces-pieces (suc fuel) size packets (b ∷ bs) p h =
    let piece = take size (b ∷ bs) in
    send_pieces-pieces fuel size (packets ++ (piece ∷ [])) (drop size (b ∷ bs)) p
      (omega (arith, length-drop size (b ∷ bs)))
    ∙ ap (λ d. (some true, d)) (append_assoc packets (piece ∷ []) _)

length-header : (m : Message) → length (header m) ≡ 24
unfolding header
length-header m = refl

-- On a pipe the loop over the packet ends, every write is acknowledged, and the packets are the
-- header and the pieces of the payload.
pub send_packet-wire :
    (size : ℕ) (packets : List Bytes) (m : Message)
    → 0 < size
    → send_packet pipe size packets m ≡ (some true, packets ++ wire size m)
unfolding send_packet encode_msg wire
send_packet-wire size packets m p =
    let body = m.payload in
    let head : take 24 (header m ++ body) ≡ header m =
      ap (λ n. take n (header m ++ body)) (sym (length-header m))
      ∙ take-length_append (header m) body in
    let tail : drop 24 (header m ++ body) ≡ body =
      ap (λ n. drop n (header m ++ body)) (sym (length-header m))
      ∙ drop-length_append (header m) body in
    rw (head, tail)
      (send_pieces-pieces (length body) size (packets ++ (header m ∷ [])) body p (omega arith)
        ∙ ap (λ d. (some true, d)) (append_assoc packets (header m ∷ []) _))

-- The fields of a message that the 32-bit header can hold, and a payload within the limit.
pub record IsSendable (m : Message) : Type 0 where
  pub cmd_fits : m.cmd < 4294967296
  pub arg0_fits : m.arg0 < 4294967296
  pub arg1_fits : m.arg1 < 4294967296
  pub payload_fits : length m.payload ≤ max_data

read_pieces-pieces :
    (fuel size : ℕ) (bytes chunks : Bytes) (rest : List Bytes)
    → 0 < size
    → length bytes ≤ fuel
    → read_pieces pipe fuel size (pieces fuel size bytes ++ rest) (length bytes) chunks
      ≡ (inr (chunks ++ bytes), rest)
unfolding read_pieces pieces take_piece
read_pieces-pieces fuel size [] chunks rest p h = rw (append-nil chunks)
read_pieces-pieces zero size (b ∷ bs) chunks rest p h = absurd (omega arith)
read_pieces-pieces (suc fuel) (suc size) (b ∷ bs) chunks rest p h =
    let piece = take (suc size) (b ∷ bs) in
    let left = drop (suc size) (b ∷ bs) in
    let packet =
      pipe_in-fits piece (pieces fuel (suc size) left ++ rest) (min (suc (length bs)) (suc size))
        (omega (arith, length-take size bs)) in
    let rest_size : suc (length bs) - length piece ≡ length left =
      omega (arith, length-take size bs, length-drop size bs) in
    let tail = pieces fuel (suc size) left ++ rest in
    ap
      (λ r.
        take_piece pipe r
          (λ p d. read_pieces pipe fuel (suc size) d (suc (length bs) - length p) (chunks ++ p)))
      packet
    ∙ ap (λ n. read_pieces pipe fuel (suc size) tail n (chunks ++ piece)) rest_size
    ∙ read_pieces-pieces fuel (suc size) left (chunks ++ piece) rest p
        (omega (arith, length-drop size bs))
    ∙ ap (λ c. (inr c, rest))
        (append_assoc chunks piece left ∙ ap (◌++◌ chunks) (take-append-drop (suc size) (b ∷ bs)))
read_pieces-pieces (suc fuel) zero (b ∷ bs) chunks rest p h = absurd (omega arith)

-- The fields that `readMsg` takes from the header are those that `encodeMsg` put there.
header_fields :
    (m : Message)
    → IsSendable m
    → (get_u32 (header m) 0 ≡ m.cmd)
      × (get_u32 (header m) 4 ≡ m.arg0)
      × (get_u32 (header m) 8 ≡ m.arg1)
      × (get_u32 (header m) 12 ≡ length m.payload)
      × (get_u32 (header m) 20 ≡ magic m.cmd)
unfolding header
header_fields m s = (
  omega (arith, s.cmd_fits),
  omega (arith, s.arg0_fits),
  omega (arith, s.arg1_fits),
  omega (arith, s.payload_fits),
  omega arith,
)

read_body-pieces :
    (size : ℕ) (m : Message) (rest : List Bytes)
    → 0 < size
    → IsSendable m
    → read_body pipe size (pieces (length m.payload) size m.payload ++ rest) (header m)
      ≡ (ok m, rest)
unfolding read_body fill
read_body-pieces size m rest p s =
    let (cmd, arg0, arg1, size', magic') = header_fields m s in
    let valid : not (magic m.cmd == magic m.cmd) || ltb max_data (length m.payload) ≡ false =
      ground (arith, s.payload_fits) in
    let pieces_read =
      read_pieces-pieces (length m.payload) size m.payload [] rest p (omega arith) in
    let fits : ltb (length m.payload) (length m.payload) ≡ false = ground arith in
    rw (cmd, arg0, size', magic', valid, pieces_read, fits, arg1)

-- Round trip: a message with 32-bit fields and a payload of at most 256 KiB is read back from the
-- packets that are written for it, and the packets behind it stay for the next read.
pub read_msg-wire :
    (size : ℕ) (m : Message) (rest : List Bytes)
    → 0 < size
    → IsSendable m
    → read_msg pipe size (wire size m ++ rest) ≡ (ok m, rest)
unfolding read_msg wire take_header
read_msg-wire size m rest p s =
    let packet =
      pipe_in-fits (header m) (pieces (length m.payload) size m.payload ++ rest) 24
        (omega (arith, length-header m)) in
    let long : ltb (length (header m)) 24 ≡ false = ground (arith, length-header m) in
    rw (packet, long) (read_body-pieces size m rest p s)
