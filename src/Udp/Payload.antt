-- ===== src/Udp/Payload.antt =====
-- udp/payload.go: the payload of a datagram, and the text of its sender's ID. Bytes are numbers
-- below 256.
pub mod RoundTrip
pub mod Examples
pub mod Hex
use close.Prelude.{
  List, Result, [], drop, err, if◌then◌else◌, length, ltb, ok, replicate, suc, take, zero, ℕ, ◌%◌,
  ◌*◌, ◌++◌, ◌+◌, ◌-◌, ◌/◌, ◌<◌, ◌^◌, ◌∷◌, ◌≡◌,
}

-- PAYLOAD_SIZE
abbrev pub payload_size : ℕ
payload_size = 16

pub record Payload : Type 0 where
  pub id : List ℕ  -- [8]byte
  pub seq : ℕ  -- uint64

-- What the Go types of the fields say.
pub record IsPayload (p : Payload) : Type 0 where
  pub id_length : length p.id ≡ 8
  pub seq_range : p.seq < 2 ^ 64

pub data PayloadError : Type 0 where
  short_payload : PayloadError

-- `binary.BigEndian.PutUint64`: the `n` low-order bytes of `x`, the highest first
unfoldable pub put_uint : ℕ → ℕ → List ℕ
put_uint zero x = []
put_uint (suc n) x = (x / 256 ^ n % 256) ∷ put_uint n x

-- `binary.BigEndian.Uint64`
unfoldable pub get_uint : ℕ → List ℕ → ℕ
get_uint acc [] = acc
get_uint acc (b ∷ bs) = get_uint (acc * 256 + b) bs

unfoldable pub pack : Payload → ℕ → List ℕ
unfolding put_uint
pack p data_size =
    let size = if ltb data_size payload_size then payload_size else data_size in
    p.id ++ (put_uint 8 p.seq ++ replicate (size - 16) 0)

unfoldable pub unpack : List ℕ → Result PayloadError Payload
unfolding get_uint
unpack buf =
    if ltb (length buf) payload_size
    then err short_payload
    else ok (record { id = take 8 buf; seq = get_uint 0 (take 8 (drop 8 buf)) })
