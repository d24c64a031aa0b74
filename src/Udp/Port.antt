-- ===== src/Udp/Port.antt =====
-- udp/port.go: source ports with random bits. The generator of package math/rand is a parameter.
use Prim.Native.Nat.{bit_and, bit_or}
use close.Prelude.{if◌then◌else◌, ℕ, ◌%◌, ◌+◌, ◌-◌, ◌==◌, ◌^◌}

abbrev pub u16 : ℕ → ℕ
u16 n = n % 2 ^ 16

-- `RandPort`, with the state of its generator
pub record RandPort (Rand : Type 0) : Type 0 where
  pub rand : Rand
  pub base : ℕ  -- uint16
  pub mask : ℕ  -- uint16

-- the zero value, behind `init`
unfoldable pub new_port : {Rand : Type 0} → Rand → RandPort Rand
new_port rand = record { rand = rand; base = 0; mask = 0 }

-- `(1<<bits) - 1` in uint16
unfoldable pub port_mask : ℕ → ℕ
port_mask bits = u16 (u16 (2 ^ bits) + (2 ^ 16 - 1))

module _ {Rand : Type 0} (next : Rand → ℕ × Rand) where
  -- `SetPort`
  unfoldable pub set_port : ℕ → RandPort Rand → RandPort Rand
  set_port port p =
      if port == 0
      then (let (n, rand) = next p.rand in record p { rand = rand; base = u16 n })
      else record p { base = u16 port }

  -- `SetRandom`
  unfoldable pub set_random : ℕ → RandPort Rand → RandPort Rand
  unfolding port_mask
  set_random bits p =
      if bits == 0
      then record p { mask = 0 }
      else record p { mask = port_mask bits; base = bit_and p.base (2 ^ 16 - 1 - port_mask bits) }

  -- `Port`
  unfoldable pub port : RandPort Rand → ℕ × RandPort Rand
  port p =
      if p.mask == 0
      then (p.base, p)
      else (let (n, rand) = next p.rand in
          (bit_or p.base (bit_and p.mask (u16 n)), record p { rand = rand }))
