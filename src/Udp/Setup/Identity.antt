-- ===== src/Udp/Setup/Identity.antt =====
-- The ID that a sender has and the one that its configuration says.
use close.Prelude.{
  All, Bool, List, Option, Result, String, err, false, if◌then◌else◌, length, none, ok, refl, some,
  str_eq, subst, true, ℕ, ◌&&◌, ◌<◌, ◌==◌, ◌≡◌,
}
use close.Udp.Payload.Hex.{IdError, id_string, parse_id, parse_id-id_string}
use close.Udp.Setup.{
  Net, SetupError, Socket, Source, SourceConfig, applied, apply, gen_id_failed, hex_id, init_ip,
  init_udp, or_err, sock_syscall, sock_udp, source_id, source_net, then_ok,
}
use close.Udp.Sock.{Addr}

module _ (n : Net) where
  abbrev Every : {A : Type 0} → (A → Type 0) → Result {0, 0} SetupError A → Type 0
  Every P (err e) = Unit {0}
  Every P (ok a) = P a

  then_ok-Every :
      {A B : Type 0} (P : A → Type 0) (Q : B → Type 0) (r : Result {0, 0} SetupError A)
      (f : A → Result {0, 0} SetupError B)
      → Every P r
      → ((a : A) → P a → Every Q (f a))
      → Every Q (then_ok n r f)
  unfolding then_ok
  then_ok-Every P Q (err e) f h k = tt
  then_ok-Every P Q (ok a) f h k = k a h

  Every-if :
      {A : Type 0} (P : A → Type 0) (b : Bool) (r s : Result {0, 0} SetupError A)
      → Every P r
      → Every P s
      → Every P (if b then r else s)
  Every-if P true r s h k = h
  Every-if P false r s h k = k

  any : {A : Type 0} (r : Result {0, 0} SetupError A) → Every (λ _. Unit {0}) r
  any (err e) = tt
  any (ok a) = tt

  abbrev IsText : List ℕ × String → Type 0
  IsText x = parse_id x.1 ≡ ok x.0

  source_id-IsText :
      (config : SourceConfig) (src : Addr) (port : ℕ)
      → ((ip : List ℕ) (port : ℕ) (id : List ℕ)
          → n.gen_id ip port ≡ some id
          → (length id ≡ 8) × All (λ b. b < 256) id)
      → Every IsText (source_id n config src port)
  unfolding source_id hex_id or_err then_ok
  source_id-IsText config src port g =
      Every-if IsText (str_eq config.id "") _ _ (generated (n.gen_id src.ip port) refl)
        (given (parse_id config.id) refl)
    where
      generated :
          (x : Option (List ℕ))
          → n.gen_id src.ip port ≡ x
          → Every IsText (then_ok n (or_err n gen_id_failed x) (λ id. ok (id, id_string id)))
      generated none e = tt
      generated (some id) e = let (l, b) = g src.ip port id e in parse_id-id_string id l b

      given :
          (x : Result {0, 0} IdError (List ℕ))
          → parse_id config.id ≡ x
          → Every IsText (hex_id n x config.id)
      given (err e) p = tt
      given (ok id) p = p

  abbrev HasText : Source n → Type 0
  HasText s = parse_id s.id_text ≡ ok s.id

  applied-HasText :
      (config : SourceConfig) (socket : Socket) (x : Addr × Addr)
      → ((ip : List ℕ) (port : ℕ) (id : List ℕ)
          → n.gen_id ip port ≡ some id
          → (length id ≡ 8) × All (λ b. b < 256) id)
      → Every HasText (applied n config socket x)
  unfolding applied
  applied-HasText config socket (dst, src) g =
      then_ok-Every IsText HasText (source_id n config src _) _ (source_id-IsText config src _ g)
        (λ id h.
          then_ok-Every (λ _. Unit {0}) HasText (source_net n config src) _
            (any (source_net n config src)) (λ net _. h))

  -- A sender that `apply` sets up has the ID that its configuration says from then on, whether it was
  -- given or was made of the source address, if what the hash gives are eight bytes.
  pub apply_has_id :
      (config : SourceConfig) (s : Source n)
      → ((ip : List ℕ) (port : ℕ) (id : List ℕ)
          → n.gen_id ip port ≡ some id
          → (length id ≡ 8) × All (λ b. b < 256) id)
      → apply n config ≡ ok s
      → parse_id s.id_text ≡ ok s.id
  unfolding apply
  apply_has_id config s g e = subst (Every HasText) e (
      Every-if HasText (str_eq config.source_net "" && config.source_port_bits == 0) _ _
        (then_ok-Every (λ _. Unit {0}) HasText (init_udp n config.dest_addr)
          (applied n config sock_udp) (any (init_udp n config.dest_addr))
          (λ x _. applied-HasText config sock_udp x g))
        (then_ok-Every (λ _. Unit {0}) HasText (init_ip n config.dest_addr)
          (applied n config sock_syscall) (any (init_ip n config.dest_addr))
          (λ x _. applied-HasText config sock_syscall x g)))
