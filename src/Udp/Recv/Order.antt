-- ===== src/Udp/Recv/Order.antt =====
-- The order in which a range goes over the map of the receiver's states. Go leaves it open; here the map
-- is a list, and its order says nothing.
use mathlib.Core.List.{Perm}
use mathlib.Core.List.Perm
use mathlib.Core.Quot
use mathlib.Core.Quot.{Quot, Quot-set}
use close.Prelude.{
  Bool-cases, List, [], ap, arith, false, false≢true, inl, inr, refl, sym, true, ℕ, ◌∙◌, ◌∷◌, ◌≡◌,
  ◌≢◌,
}
use close.Udp.Recv.{Packet, RecvState, States, handle_packet, make_state, on_packet, same_id}

-- The same entries in another order; two of them change places only if their keys differ.
pub data Shuffled : States → States → Type 0 where
  none_left : Shuffled [] []
  keeps : {rs ss : States} (r : RecvState) → Shuffled rs ss → Shuffled (r ∷ rs) (r ∷ ss)
  swaps :
      {rs : States} (a b : RecvState)
      → same_id a.id b.id ≡ false
      → Shuffled (a ∷ b ∷ rs) (b ∷ a ∷ rs)
  joins : {rs ss ts : States} → Shuffled rs ss → Shuffled ss ts → Shuffled rs ts

pub Shuffled-refl : (rs : States) → Shuffled rs rs
Shuffled-refl [] = none_left
Shuffled-refl (r ∷ rs) = keeps r (Shuffled-refl rs)

same_id_sound : (i j : List ℕ) → same_id i j ≡ true → i ≡ j
unfolding same_id
same_id_sound [] [] h = refl
same_id_sound [] (b ∷ bs) h = cc
same_id_sound (a ∷ as') [] h = cc
same_id_sound (a ∷ as') (b ∷ bs) h =
    let tail : as' ≡ bs = same_id_sound as' bs (ground arith) in
    let head : a ≡ b = ground arith in cc

same_id_complete : (i : List ℕ) → same_id i i ≡ true
unfolding same_id
same_id_complete [] = refl
same_id_complete (a ∷ as') = ground (arith, same_id_complete as')

-- no two different keys are those of one packet
same_id_both : (a b p : List ℕ) → same_id a p ≡ true → same_id b p ≡ true → same_id a b ≢ false
same_id_both a b p ha hb n =
    let e : a ≡ b = same_id_sound a p ha ∙ sym (same_id_sound b p hb) in
    false≢true (sym n ∙ ap (same_id a) (sym e) ∙ same_id_complete a)

-- one key is not that of two packets with different ones
same_id_one : (a p q : List ℕ) → same_id a p ≡ true → same_id a q ≡ true → same_id p q ≢ false
same_id_one a p q hp hq n =
    let e : p ≡ q = sym (same_id_sound a p hp) ∙ same_id_sound a q hq in
    false≢true (sym n ∙ ap (same_id p) (sym e) ∙ same_id_complete p)

same_id_ne : {i j : List ℕ} → i ≢ j → same_id i j ≡ false
same_id_ne {i} {j} n = elim (Bool-cases (same_id i j)) [
  | inl e ↦ absurd (n (same_id_sound i j e))
  | inr e ↦ e
]

handle_id : (now : ℕ) (q : Packet) (r : RecvState) → (handle_packet now q r).id ≡ r.id
unfolding handle_packet
handle_id now q r = ground arith

on_packet-Shuffled :
    (now : ℕ) (p : Packet) {rs ss : States}
    → Shuffled rs ss
    → Shuffled (on_packet now p rs) (on_packet now p ss)
unfolding on_packet
on_packet-Shuffled now p none_left = Shuffled-refl (make_state now p ∷ [])
on_packet-Shuffled now p (keeps r s) = elim (Bool-cases (same_id r.id p.payload.id)) [
  | inl e ↦ rw e (keeps (handle_packet now p r) s)
  | inr e ↦ rw e (keeps r (on_packet-Shuffled now p s))
]
on_packet-Shuffled now p (swaps {rs} a b d) = elim (Bool-cases (same_id a.id p.payload.id)) [
  | inl e ↦ elim (Bool-cases (same_id b.id p.payload.id)) [
    | inl f ↦ absurd (same_id_both a.id b.id p.payload.id e f d)
    | inr f ↦
        rw (e, f)
          (swaps (handle_packet now p a) b (ap (λ i. same_id i b.id) (handle_id now p a) ∙ d))
  ]
  | inr e ↦ elim (Bool-cases (same_id b.id p.payload.id)) [
    | inl f ↦
        rw (e, f) (swaps a (handle_packet now p b) (ap (same_id a.id) (handle_id now p b) ∙ d))
    | inr f ↦ rw (e, f) (swaps a b d)
  ]
]
on_packet-Shuffled now p (joins s t) =
    joins (on_packet-Shuffled now p s) (on_packet-Shuffled now p t)

-- The map, without an order.
abbrev pub StateMap : Type 0
StateMap = Quot Shuffled

-- a packet that arrives
pub receive : ℕ → Packet → StateMap → StateMap
receive now p =
    Quot.lift Quot-set (λ rs. Quot.mk (on_packet now p rs))
      (λ rs ss h. Quot.sound (on_packet-Shuffled now p h))

on_packet-on_packet :
    (now later : ℕ) (p q : Packet) (rs : States)
    → same_id p.payload.id q.payload.id ≡ false
    → same_id q.payload.id p.payload.id ≡ false
    → Shuffled (on_packet now p (on_packet later q rs)) (on_packet later q (on_packet now p rs))
unfolding on_packet make_state
on_packet-on_packet now later p q [] d d' =
    rw (d, d') (swaps (make_state later q) (make_state now p) d')
on_packet-on_packet now later p q (r ∷ rs) d d' = elim (Bool-cases (same_id r.id p.payload.id)) [
  | inl e ↦ elim (Bool-cases (same_id r.id q.payload.id)) [
    | inl f ↦ absurd (same_id_one r.id p.payload.id q.payload.id e f d)
    | inr f ↦
        (let f' = ap (λ i. same_id i q.payload.id) (handle_id now p r) ∙ f in
          rw (f, e, f') (Shuffled-refl (handle_packet now p r ∷ on_packet later q rs)))
  ]
  | inr e ↦ elim (Bool-cases (same_id r.id q.payload.id)) [
    | inl f ↦
        (let e' = ap (λ i. same_id i p.payload.id) (handle_id later q r) ∙ e in
          rw (f, e, e', f) (Shuffled-refl (handle_packet later q r ∷ on_packet now p rs)))
    | inr f ↦ rw (f, e, f) (keeps r (on_packet-on_packet now later p q rs d d'))
  ]
]

-- Packets of different senders may change places: whichever comes first, the receiver's map is the same.
pub receive_comm :
    (now later : ℕ) (p q : Packet)
    → p.payload.id ≢ q.payload.id
    → (m : StateMap) → receive now p (receive later q m) ≡ receive later q (receive now p m)
unfolding receive
receive_comm now later p q n =
    let d = same_id_ne n in
    let d' = same_id_ne (λ e. n (sym e)) in
    Quot.ind (λ m. Quot-set _ _) (λ rs. Quot.sound (on_packet-on_packet now later p q rs d d'))
