-- ===== src/AdbUsb/Interface/Search.antt =====
-- What `findAdbIface` returns, and when it returns nothing.
use friendly_ai_explorer.Common.{
  ◌⊎◌, ◌⊎◌, ◌⊎◌, All, Any, ℕ, ◌≡◌, refl, ◌≢◌, ◌⊎◌, inl, inr, true, none, some, List, [], ◌∷◌, arith,
}
use friendly_ai_explorer.AdbUsb.Interface.{
  bulk, Direction, inward, outward, Endpoint, Alternate, UsbInterface, Configuration, AdbIface,
  adb_class, adb_subclass, adb_protocol, is_adb, Scan, no_endpoints, scan_direction, scan_endpoint,
  scan_endpoints, complete, first, try_alternate, find_alternate, find_interface, find_adb_iface,
}

abbrev pub IsAdb : Alternate → Type 0
IsAdb alt =
    (alt.class_code ≡ adb_class)
    × (alt.subclass_code ≡ adb_subclass)
    × (alt.protocol_code ≡ adb_protocol)

abbrev pub IsBulkIn : ℕ → ℕ → Endpoint → Type 0
IsBulkIn number size ep =
    (ep.kind ≡ bulk) × (ep.direction ≡ inward) × (ep.number ≡ number) × (ep.packet_size ≡ size)

abbrev pub IsBulkOut : ℕ → Endpoint → Type 0
IsBulkOut number ep = (ep.kind ≡ bulk) × (ep.direction ≡ outward) × (ep.number ≡ number)

-- The alternate offers what the interface record says.
abbrev pub Offers : AdbIface → Alternate → Type 0
Offers r alt =
    IsAdb alt
    × Any (IsBulkIn r.ep_in r.max_packet) alt.endpoints
    × Any (IsBulkOut r.ep_out) alt.endpoints

is_adb-IsAdb : (alt : Alternate) → is_adb alt ≡ true → IsAdb alt
unfolding is_adb
is_adb-IsAdb alt h = ground arith

-- What a scan has found stands among the endpoints, or was there before.
scan_in :
    (eps : List Endpoint) (s : Scan) (i : ℕ)
    → (scan_endpoints eps s).ep_in ≡ some i
    → ((s.ep_in ≡ some i) × ((scan_endpoints eps s).max_packet ≡ s.max_packet))
      ⊎ Any (IsBulkIn i (scan_endpoints eps s).max_packet) eps
unfolding scan_endpoints scan_endpoint scan_direction
scan_in [] s i h = inl (h, refl)
scan_in (ep ∷ eps) s i h = ground (arith, scan_in eps (scan_endpoint ep.kind ep s) i h)

scan_out :
    (eps : List Endpoint) (s : Scan) (o : ℕ)
    → (scan_endpoints eps s).ep_out ≡ some o
    → (s.ep_out ≡ some o) ⊎ Any (IsBulkOut o) eps
unfolding scan_endpoints scan_endpoint scan_direction
scan_out [] s o h = inl h
scan_out (ep ∷ eps) s o h = ground (arith, scan_out eps (scan_endpoint ep.kind ep s) o)

try_alternate-Offers :
    (num : ℕ) (alt : Alternate) (r : AdbIface)
    → try_alternate num alt ≡ some r
    → (r.iface_num ≡ num) × Offers r alt
unfolding try_alternate complete
try_alternate-Offers num alt r h = ground (
  arith,
  is_adb-IsAdb alt,
  scan_in alt.endpoints no_endpoints r.ep_in,
  scan_out alt.endpoints no_endpoints r.ep_out,
)

find_alternate-Offers :
    (num : ℕ) (alts : List Alternate) (r : AdbIface)
    → find_alternate num alts ≡ some r
    → (r.iface_num ≡ num) × Any (Offers r) alts
unfolding find_alternate first
find_alternate-Offers num [] r h = cc
find_alternate-Offers num (alt ∷ alts) r h =
    ground (arith, try_alternate-Offers num alt r, find_alternate-Offers num alts r)

-- An interface of the device is the one that the record names.
abbrev pub Provides : AdbIface → UsbInterface → Type 0
Provides r i = (r.iface_num ≡ i.number) × Any (Offers r) i.alternates

find_interface-Provides :
    (is : List UsbInterface) (r : AdbIface) → find_interface is ≡ some r → Any (Provides r) is
unfolding find_interface first
find_interface-Provides [] r h = cc
find_interface-Provides (i ∷ is) r h =
    ground (arith, find_alternate-Offers i.number i.alternates r, find_interface-Provides is r)

-- What is found is there: some interface of some configuration has the returned number and an
-- alternate of ADB's class, subclass and protocol, with a bulk endpoint each way; the input
-- endpoint and the packet size come from one endpoint.
pub find_adb_iface-Provides :
    (cs : List Configuration) (r : AdbIface)
    → find_adb_iface cs ≡ some r
    → Any (λ c. Any (Provides r) c.interfaces) cs
unfolding find_adb_iface first
find_adb_iface-Provides [] r h = cc
find_adb_iface-Provides (c ∷ cs) r h =
    ground (arith, find_interface-Provides c.interfaces r, find_adb_iface-Provides cs r)

-- A bulk endpoint of the given direction.
abbrev pub Bulk : Direction → Endpoint → Type 0
Bulk d ep = (ep.kind ≡ bulk) × (ep.direction ≡ d)

-- An ADB alternate with bulk endpoints both ways.
abbrev pub IsUsable : Alternate → Type 0
IsUsable alt = IsAdb alt × Any (Bulk inward) alt.endpoints × Any (Bulk outward) alt.endpoints

scan_in_found :
    (eps : List Endpoint) (s : Scan)
    → (s.ep_in ≢ none) ⊎ Any (Bulk inward) eps
    → (scan_endpoints eps s).ep_in ≢ none
unfolding scan_endpoints scan_endpoint scan_direction
scan_in_found [] s h = ground arith
scan_in_found (ep ∷ eps) s h = ground (arith, scan_in_found eps (scan_endpoint ep.kind ep s))

scan_out_found :
    (eps : List Endpoint) (s : Scan)
    → (s.ep_out ≢ none) ⊎ Any (Bulk outward) eps
    → (scan_endpoints eps s).ep_out ≢ none
unfolding scan_endpoints scan_endpoint scan_direction
scan_out_found [] s h = ground arith
scan_out_found (ep ∷ eps) s h = ground (arith, scan_out_found eps (scan_endpoint ep.kind ep s))

try_alternate-none : (num : ℕ) (alt : Alternate) → try_alternate num alt ≡ none → ¬ IsUsable alt
unfolding try_alternate complete is_adb
try_alternate-none num alt h u = ground (
  arith,
  scan_in_found alt.endpoints no_endpoints (inr u.1),
  scan_out_found alt.endpoints no_endpoints (inr u.2),
)

find_alternate-none :
    (num : ℕ) (alts : List Alternate)
    → find_alternate num alts ≡ none
    → All (λ alt. ¬ IsUsable alt) alts
unfolding find_alternate first
find_alternate-none num [] h = tt
find_alternate-none num (alt ∷ alts) h =
    (try_alternate-none num alt (ground arith), find_alternate-none num alts (ground arith))

find_interface-none :
    (is : List UsbInterface)
    → find_interface is ≡ none
    → All (λ i. All (λ alt. ¬ IsUsable alt) i.alternates) is
unfolding find_interface first
find_interface-none [] h = tt
find_interface-none (i ∷ is) h = (
  find_alternate-none i.number i.alternates (ground arith),
  find_interface-none is (ground arith),
)

-- Nothing is found only on a device where no alternate of any interface is usable.
pub find_adb_iface-none :
    (cs : List Configuration)
    → find_adb_iface cs ≡ none
    → All (λ c. All (λ i. All (λ alt. ¬ IsUsable alt) i.alternates) c.interfaces) cs
unfolding find_adb_iface first
find_adb_iface-none [] h = tt
find_adb_iface-none (c ∷ cs) h =
    (find_interface-none c.interfaces (ground arith), find_adb_iface-none cs (ground arith))
