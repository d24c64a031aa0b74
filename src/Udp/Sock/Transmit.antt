-- ===== src/Udp/Sock/Transmit.antt =====
-- What a sender sends is what a receiver reads.
use close.Prelude.{
  List, [], ap, arith, drop, length, ltb, max, min, ok, refl, some, suc, take, zero, ℕ, ◌+◌, ◌∷◌,
  ◌≡◌, ◌≤◌,
}
use close.Udp.Payload.{IsPayload, pack, unpack}
use close.Udp.Sock.{Addr, Packet, SockStats, count_packet, packet_mtu, recv, send_udp}
use close.Udp.Payload.RoundTrip.{length-pack, unpack-pack}

take_short {ℓ} : {A : Type ℓ} (n : ℕ) (xs : List A) → length (take n xs) ≡ min n (length xs)
take_short zero xs = omega arith
take_short (suc n) [] = omega arith
take_short (suc n) (x ∷ xs) = omega (arith, take_short n xs)

take-take {ℓ} : {A : Type ℓ} (n m : ℕ) (xs : List A) → n ≤ m → take n (take m xs) ≡ take n xs
take-take zero m xs h = refl
take-take (suc n) zero xs h = absurd (omega arith)
take-take (suc n) (suc m) [] h = refl
take-take (suc n) (suc m) (x ∷ xs) h = ap (λ t. x ∷ t) (take-take n m xs (omega arith))

take-drop-take {ℓ} :
    {A : Type ℓ} (n m k : ℕ) (xs : List A)
    → n + m ≤ k
    → take m (drop n (take k xs)) ≡ take m (drop n xs)
take-drop-take zero m k xs h = take-take m k xs (omega arith)
take-drop-take (suc n) m zero xs h = absurd (omega arith)
take-drop-take (suc n) m (suc k) [] h = refl
take-drop-take (suc n) m (suc k) (x ∷ xs) h = take-drop-take n m k xs (omega arith)

unpack-take : (k : ℕ) (buf : List ℕ) → 16 ≤ k → unpack (take k buf) ≡ unpack buf
unfolding unpack
unpack-take k buf h =
    let same : ltb (length (take k buf)) 16 ≡ ltb (length buf) 16 =
      ground (arith, take_short k buf) in
    rw (same, take-take 8 k buf (omega arith), take-drop-take 8 8 k buf h)

size :
    (k : ℕ) (p : Packet)
    → IsPayload p.payload
    → length (take k (pack p.payload p.payload_size)) ≡ min k (max p.payload_size 16)
size k p v =
    rw (take_short k (pack p.payload p.payload_size), length-pack p.payload p.payload_size v)

-- A packet that is sent through a UDP socket arrives with its payload, whatever size was asked for,
-- and it is counted on both sides; its size is the one asked for, but at least that of the payload
-- and at most that of the receiver's buffer.
pub recv-send_udp :
    (p : Packet) (local src : Addr) (s t : SockStats) (written : ℕ)
    → IsPayload p.payload
    → let (datagram, s') = send_udp p (some written) s in
      (recv local (some (datagram, src)) t ≡ (
        ok (record {
          src = src;
          dst = local;
          payload_size = min packet_mtu (max p.payload_size 16);
          payload = p.payload;
        }),
        count_packet (min packet_mtu (max p.payload_size 16)) t,
      ))
      × (s' ≡ count_packet written s)
unfolding recv send_udp
recv-send_udp p local src s t written v = (
  rw (
    unpack-take packet_mtu (pack p.payload p.payload_size) (omega arith),
    unpack-pack p.payload p.payload_size v,
    size packet_mtu p v,
  ),
  refl,
)
