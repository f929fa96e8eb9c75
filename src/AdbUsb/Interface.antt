-- ===== src/AdbUsb/Interface.antt =====
-- `findAdbIface`. The device's descriptors are data that the browser gives; an endpoint number is
-- never negative, so `none` stands for the code's -1.
pub mod Search
use friendly_ai_explorer.Common.{
  ◌⊎◌, ◌⊎◌, ◌⊎◌, ltb, leb, ◌==◌, if◌then◌else◌, within, ltb→lt, lt→ltb, leb→le, ==_iff, Bool-cases,
  Option-cases, length, take, drop, get_elem?, get_or, length-append, length-take, length-drop,
  take-append-drop, take-length_append, drop-length_append, take-append_le, drop-append_le,
  get_or-append_lt, get_elem?-below, get_elem?-above, All, Any, All-append, flatten-append, any,
  includes, ℤ, Number, is_integer, number_below, number_above, natural, pos, negsuc, integer,
  fractional, Bytes, IsByte, le32, get_u32, ℕ, zero, suc, ◌+◌, ◌-◌, ◌*◌, ◌/◌, ◌%◌, ◌^◌, ◌≤◌, ◌<◌,
  min, max, pred, bit_and, bit_or, bit_xor, ◌≡◌, refl, sym, ap, ap₂, subst, ◌∙◌, ◌≡⟨◌⟩◌, ◌∎, ◌≢◌,
  ◌↔◌, ◌⊎◌, inl, inr, Bool, true, false, not, ◌&&◌, ◌||◌, Option, none, some, List, [], ◌∷◌, ◌++◌,
  map, append-nil, append_assoc, arith, flatten,
}

pub data EndpointType : Type 0 where
  bulk interrupt isochronous : EndpointType

pub data Direction : Type 0 where
  inward outward : Direction

pub record Endpoint : Type 0 where
  pub kind : EndpointType
  pub direction : Direction
  pub number : ℕ
  pub packet_size : ℕ

pub record Alternate : Type 0 where
  pub class_code : ℕ
  pub subclass_code : ℕ
  pub protocol_code : ℕ
  pub endpoints : List Endpoint

pub record UsbInterface : Type 0 where
  pub number : ℕ
  pub alternates : List Alternate

pub record Configuration : Type 0 where
  pub interfaces : List UsbInterface

pub record AdbIface : Type 0 where
  pub iface_num : ℕ
  pub ep_in : ℕ
  pub ep_out : ℕ
  pub max_packet : ℕ

abbrev pub adb_class : ℕ
adb_class = 0xff

abbrev pub adb_subclass : ℕ
adb_subclass = 0x42

abbrev pub adb_protocol : ℕ
adb_protocol = 0x01

unfoldable pub is_adb : Alternate → Bool
is_adb alt =
    alt.class_code == adb_class
    && alt.subclass_code == adb_subclass
    && alt.protocol_code == adb_protocol

-- `epIn`, `epOut` and `maxPacket` during the loop over the endpoints.
pub record Scan : Type 0 where
  pub ep_in : Option ℕ
  pub ep_out : Option ℕ
  pub max_packet : ℕ

abbrev pub no_endpoints : Scan
no_endpoints = record { ep_in = none; ep_out = none; max_packet = 512 }

unfoldable pub scan_direction : Direction → Endpoint → Scan → Scan
scan_direction inward ep s = record s { ep_in = some ep.number; max_packet = ep.packet_size }
scan_direction outward ep s = record s { ep_out = some ep.number }

-- `if (ep.type !== "bulk") continue;`
unfoldable pub scan_endpoint : EndpointType → Endpoint → Scan → Scan
scan_endpoint bulk ep s = scan_direction ep.direction ep s
scan_endpoint interrupt ep s = s
scan_endpoint isochronous ep s = s

unfoldable pub scan_endpoints : List Endpoint → Scan → Scan
scan_endpoints [] s = s
scan_endpoints (ep ∷ eps) s = scan_endpoints eps (scan_endpoint ep.kind ep s)

-- `if (epIn >= 0 && epOut >= 0) return ...`
unfoldable pub complete : ℕ → Option ℕ → Option ℕ → ℕ → Option AdbIface
complete num (some i) (some o) size =
    some (record { iface_num = num; ep_in = i; ep_out = o; max_packet = size })
complete num (some i) none size = none
complete num none o size = none

unfoldable pub try_alternate : ℕ → Alternate → Option AdbIface
try_alternate num alt =
    let s = scan_endpoints alt.endpoints no_endpoints in
    if is_adb alt then complete num s.ep_in s.ep_out s.max_packet else none

-- A loop that returns at its first hit.
unfoldable pub first : Option AdbIface → Option AdbIface → Option AdbIface
first (some r) rest = some r
first none rest = rest

unfoldable pub find_alternate : ℕ → List Alternate → Option AdbIface
find_alternate num [] = none
find_alternate num (alt ∷ alts) = first (try_alternate num alt) (find_alternate num alts)

unfoldable pub find_interface : List UsbInterface → Option AdbIface
find_interface [] = none
find_interface (i ∷ is) = first (find_alternate i.number i.alternates) (find_interface is)

unfoldable pub find_adb_iface : List Configuration → Option AdbIface
find_adb_iface [] = none
find_adb_iface (c ∷ cs) = first (find_interface c.interfaces) (find_adb_iface cs)
