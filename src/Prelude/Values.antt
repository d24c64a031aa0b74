-- ===== src/Prelude/Values.antt =====
-- A value that was decoded from JSON into an `interface{}`, with numbers kept as texts (json.Number).
use Prim.Native.String.{String}

pub data Value : Type 0 where
  json_text json_number : String → Value
  json_other : Value
