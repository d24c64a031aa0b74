-- ===== src/Udp/Payload/RoundTrip.antt =====
-- Packing and unpacking of payloads.
use close.Prelude.{
  List, [], ap, arith, drop, false, if◌then◌else◌, length, length-append, length-replicate, ltb,
  max, ok, refl, replicate, suc, take, zero, ℕ, ◌++◌, ◌-◌, ◌<◌, ◌^◌, ◌∙◌, ◌∷◌, ◌≡◌,
}
use close.Udp.Payload.{Payload, IsPayload, payload_size, put_uint, get_uint, pack, unpack}

get_uint-put_uint : (x : ℕ) → x < 2 ^ 64 → get_uint 0 (put_uint 8 x) ≡ x
unfolding get_uint put_uint
get_uint-put_uint x h = omega arith

take-append {ℓ} : {A : Type ℓ} (n : ℕ) (xs ys : List A) → length xs ≡ n → take n (xs ++ ys) ≡ xs
take-append zero [] ys h = refl
take-append zero (x ∷ xs) ys h = absurd (omega arith)
take-append (suc n) [] ys h = absurd (omega arith)
take-append (suc n) (x ∷ xs) ys h = ap (λ t. x ∷ t) (take-append n xs ys (omega arith))

drop-append {ℓ} : {A : Type ℓ} (n : ℕ) (xs ys : List A) → length xs ≡ n → drop n (xs ++ ys) ≡ ys
drop-append zero [] ys h = refl
drop-append zero (x ∷ xs) ys h = absurd (omega arith)
drop-append (suc n) [] ys h = absurd (omega arith)
drop-append (suc n) (x ∷ xs) ys h = drop-append n xs ys (omega arith)

-- A packed payload is as long as was asked for, and never shorter than 16 bytes.
pub length-pack : (p : Payload) (n : ℕ) → IsPayload p → length (pack p n) ≡ max n payload_size
unfolding pack
length-pack p n v = simp (length-append, length-replicate, v.id_length) (ground arith)

take-pack : (p : Payload) (n : ℕ) → IsPayload p → take 8 (pack p n) ≡ p.id
unfolding pack
take-pack p n v = take-append 8 p.id _ v.id_length

drop-pack : (p : Payload) (n : ℕ) → IsPayload p → take 8 (drop 8 (pack p n)) ≡ put_uint 8 p.seq
unfolding pack
drop-pack p n v =
    ap (take 8) (drop-append 8 p.id (put_uint 8 p.seq ++ zeros n) v.id_length)
    ∙ take-append 8 (put_uint 8 p.seq) (zeros n) refl
  where
    zeros : ℕ → List ℕ
    zeros n = replicate ((if ltb n payload_size then payload_size else n) - 16) 0

-- A receiver reads the ID and the sequence number that the sender packed, at every packet size.
pub unpack-pack : (p : Payload) (n : ℕ) → IsPayload p → unpack (pack p n) ≡ ok p
unfolding unpack
unpack-pack p n v =
    let long : ltb (length (pack p n)) payload_size ≡ false = ground (arith, length-pack p n v) in
    rw (long, drop-pack p n v, take-pack p n v, get_uint-put_uint p.seq v.seq_range)
