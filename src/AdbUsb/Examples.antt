-- ===== src/AdbUsb/Examples.antt =====
-- A small device, a small message and small numbers, and the theorems at them.
use friendly_ai_explorer.Common.{
  length, All, Any, Bytes, ◌+◌, ◌%◌, ◌^◌, ◌<◌, ◌≡◌, refl, true, none, some, List, [], ◌∷◌, ◌++◌,
  arith,
}
use friendly_ai_explorer.AdbUsb.Interface.{
  bulk, inward, outward, Endpoint, Alternate, Configuration, AdbIface, is_adb, scan_direction,
  scan_endpoint, scan_endpoints, complete, try_alternate, first, find_alternate, find_interface,
  find_adb_iface,
}
use friendly_ai_explorer.AdbUsb.Interface.Search.{
  Provides, IsUsable, find_adb_iface-Provides, find_adb_iface-none,
}
use friendly_ai_explorer.AdbUsb.Numbers.{
  bytes_to_big_int, big_int_to_le_words, signature_bytes, power_mod, sha1_prefix, pkcs1_encode,
}
use friendly_ai_explorer.AdbUsb.Numbers.Laws.{
  le_value, le_value-big_int_to_le_words, bytes_to_big_int-signature_bytes,
}
use friendly_ai_explorer.AdbUsb.Numbers.Power.{power_mod-pow}
use friendly_ai_explorer.AdbUsb.Numbers.Padding.{pkcs1_encode_block}
use friendly_ai_explorer.AdbUsb.Message.{Message, ok, send_packet, read_msg}
use friendly_ai_explorer.AdbUsb.Message.Pipe.{pipe, wire}
use friendly_ai_explorer.AdbUsb.Message.RoundTrip.{IsSendable, send_packet-wire, read_msg-wire}

abbrev bulk_in : Endpoint
bulk_in = record { kind = bulk; direction = inward; number = 1; packet_size = 64 }

abbrev bulk_out : Endpoint
bulk_out = record { kind = bulk; direction = outward; number = 2; packet_size = 64 }

abbrev adb_alternate : Alternate
adb_alternate = record {
  class_code = 0xff;
  subclass_code = 0x42;
  protocol_code = 1;
  endpoints = bulk_in ∷ bulk_out ∷ [];
}

abbrev phone : List Configuration
phone = record { interfaces = record { number = 3; alternates = adb_alternate ∷ [] } ∷ [] } ∷ []

abbrev keyboard : List Configuration
keyboard =
    record {
      interfaces =
          record { number = 0; alternates = record adb_alternate { class_code = 3 } ∷ [] } ∷ [];
    }
    ∷ []

abbrev adb_iface : AdbIface
adb_iface = record { iface_num = 3; ep_in = 1; ep_out = 2; max_packet = 64 }

phone_found : find_adb_iface phone ≡ some adb_iface
unfolding find_adb_iface find_interface find_alternate first try_alternate is_adb scan_endpoints
    scan_endpoint scan_direction complete
phone_found = refl

keyboard_not_found : find_adb_iface keyboard ≡ none
unfolding find_adb_iface find_interface find_alternate first try_alternate is_adb
keyboard_not_found = refl

find_adb_iface-Provides_example : Any (λ c. Any (Provides adb_iface) c.interfaces) phone
find_adb_iface-Provides_example = find_adb_iface-Provides phone adb_iface phone_found

find_adb_iface-none_example :
    All (λ c. All (λ i. All (λ alt. ¬ IsUsable alt) i.alternates) c.interfaces) keyboard
find_adb_iface-none_example = find_adb_iface-none keyboard keyboard_not_found

le_value-big_int_to_le_words_example :
    (le_value (big_int_to_le_words 5000000000 2) ≡ 5000000000)
    × (length (big_int_to_le_words 5000000000 2) ≡ 2)
    × All (λ w. w < 4294967296) (big_int_to_le_words 5000000000 2)
le_value-big_int_to_le_words_example = le_value-big_int_to_le_words 5000000000 2 (omega arith)

bytes_to_big_int-signature_bytes_example :
    (bytes_to_big_int (signature_bytes 70000 3) ≡ 70000) × (length (signature_bytes 70000 3) ≡ 3)
bytes_to_big_int-signature_bytes_example = bytes_to_big_int-signature_bytes 70000 3 (omega arith)

power_mod-pow_example : power_mod 7 13 55 ≡ 7 ^ 13 % 55
power_mod-pow_example = power_mod-pow 7 13 55 (omega arith)

abbrev token : Bytes
token = 1 ∷ 2 ∷ 3 ∷ []

pkcs1_encode_block_example :
    pkcs1_encode (2 + 18 + length token) token
    ≡ some (0 ∷ 1 ∷ 255 ∷ 255 ∷ 0 ∷ (sha1_prefix ++ token))
pkcs1_encode_block_example = pkcs1_encode_block 2 token

abbrev okay : Message
okay = record { cmd = 0x59414b4f; arg0 = 7; arg1 = 9; payload = token }

okay-IsSendable : IsSendable okay
okay-IsSendable = record {
  cmd_fits = omega arith;
  arg0_fits = omega arith;
  arg1_fits = omega arith;
  payload_fits = omega arith;
}

send_packet-wire_example : send_packet pipe 2 [] okay ≡ (some true, wire 2 okay)
send_packet-wire_example = send_packet-wire 2 [] okay (omega arith)

read_msg-wire_example : read_msg pipe 2 (wire 2 okay ++ (token ∷ [])) ≡ (ok okay, token ∷ [])
read_msg-wire_example = read_msg-wire 2 okay (token ∷ []) (omega arith) okay-IsSendable
