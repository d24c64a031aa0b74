-- ===== src/Udp/Payload/Examples.antt =====
-- A payload whose sequence number needs two bytes.
use close.Prelude.{[], ok, refl, ◌∷◌, ◌≡◌}
use close.Udp.Payload.{Payload, pack, unpack}

abbrev three_hundred : Payload
three_hundred = record { id = 1 ∷ 2 ∷ 3 ∷ 4 ∷ 5 ∷ 6 ∷ 7 ∷ 255 ∷ []; seq = 300 }

read_back : unpack (pack three_hundred 20) ≡ ok three_hundred
unfolding pack unpack
read_back = refl
