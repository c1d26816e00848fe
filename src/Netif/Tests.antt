-- ===== src/Netif/Tests.antt =====
-- The text of the address 192.168.1.200.
use pico_ocaml.Prelude.{◌<◌, ◌≡◌, ◌↔◌, ◌%◌, arith}
use pico_ocaml.Prelude.Value.{val_int}
use pico_ocaml.Net.Stubs.Values.{address}
use pico_ocaml.Netif.{dotted, ip_to_string, ip_to_string-address}

ip_to_string-address_example :
    (ip_to_string (val_int (address 192 168 1 200)) ≡ dotted 192 168 1 (200 % 128))
    × ((ip_to_string (val_int (address 192 168 1 200)) ≡ dotted 192 168 1 200) ↔ (200 < 128))
ip_to_string-address_example =
    ip_to_string-address 192 168 1 200 (omega arith) (omega arith) (omega arith) (omega arith)
