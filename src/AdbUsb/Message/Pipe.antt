-- ===== src/AdbUsb/Message/Pipe.antt =====
-- A USB pipe that hands over each packet that was written, in order: the device against which the
-- two directions of the code are read together.
use friendly_ai_explorer.Common.{
  leb, if◌then◌else◌, length, take, drop, Bytes, ℕ, zero, suc, ◌≤◌, ◌≡◌, true, some, List, [], ◌∷◌,
  ◌++◌, arith,
}
use friendly_ai_explorer.AdbUsb.Message.{Usb, InResult, bad_status, received, Message, header}

unfoldable pub pipe_in : List Bytes → ℕ → InResult × List Bytes
pipe_in [] size = (bad_status, [])
pipe_in (packet ∷ packets) size =
    if leb (length packet) size then (received (some packet), packets) else (bad_status, packets)

pub pipe_in-fits :
    (packet : Bytes) (packets : List Bytes) (size : ℕ)
    → length packet ≤ size
    → pipe_in (packet ∷ packets) size ≡ (received (some packet), packets)
unfolding pipe_in
pipe_in-fits packet packets size h = ground arith

-- A packet that is larger than the request is an error of the transfer, as on a real bus.
abbrev pub pipe : Usb
pipe = record {
  Dev = List Bytes;
  transfer_out = λ packets bytes. (true, packets ++ (bytes ∷ []));
  transfer_in = pipe_in;
}

-- A payload in packets of the given size.
unfoldable pub pieces : ℕ → ℕ → Bytes → List Bytes
pieces fuel size [] = []
pieces zero size (b ∷ bs) = []
pieces (suc fuel) size (b ∷ bs) = take size (b ∷ bs) ∷ pieces fuel size (drop size (b ∷ bs))

-- The packets of a message: the header by itself, then the payload.
unfoldable pub wire : ℕ → Message → List Bytes
wire size m = header m ∷ pieces (length m.payload) size m.payload
