-- ===== src/Udp/Setup/Examples.antt =====
-- A sender without a configured ID, on a host with one address.

use close.Prelude.{
  All, List, [], arith, length, none, ok, refl, some, subst, true, ℕ, ◌+◌, ◌<◌, ◌∷◌, ◌≡◌,
}
use close.Udp.Payload.Hex.{id_string}
use close.Udp.Port.{new_port, port, set_port}
use close.Udp.Setup.{
  Net, Source, SourceConfig, applied, apply, init_udp, ip4, or_err, sock_udp, source_id, source_net,
  source_port, then_ok,
}
use close.Udp.Sock.{Addr}

abbrev host : Addr
host = record { ip = 10 ∷ 0 ∷ 0 ∷ 1 ∷ []; port = 4000 }

abbrev eight_bytes : List ℕ
eight_bytes = 1 ∷ 2 ∷ 3 ∷ 4 ∷ 5 ∷ 6 ∷ 7 ∷ 255 ∷ []

abbrev net : Net
net = record {
  resolve = λ text. some host;
  dial = λ addr. some host;
  family = λ ip. ip4;
  raw_socket = true;
  gen_id = λ ip port. some eight_bytes;
  parse_cidr = λ text. none;
  Rand = ℕ;
  seeded = 0;
  next = λ s. (s, s + 1);
}

abbrev config : SourceConfig
config = record {
  dest_addr = "10.0.0.1:1337";
  source_net = "";
  source_port = 0;
  source_port_bits = 0;
  id = "";
}

abbrev source : Source net
source = record {
  socket = sock_udp;
  dst = host;
  src_ip = 10 ∷ 0 ∷ 0 ∷ 1 ∷ [];
  src_addr_bits = 0;
  src_port = record { rand = 0; base = 4000; mask = 0 };
  id = eight_bytes;
  id_text = id_string eight_bytes;
}

eight : (id : List ℕ) → some eight_bytes ≡ some id → (length id ≡ 8) × All (λ b. b < 256) id
eight id e =
    let q : eight_bytes ≡ id = cc in
    subst (λ bs. (length bs ≡ 8) × All (λ b. b < 256) bs) q (refl, ground arith)

applied_source : apply net config ≡ ok source
unfolding apply applied init_udp or_err then_ok source_id source_net source_port new_port set_port
    port
applied_source = refl
