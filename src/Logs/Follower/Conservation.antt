-- ===== src/Logs/Follower/Conservation.antt =====
-- What a follower has done with the messages that arrived.
use close.Prelude.{
  List, [], ap, arith, length, length-append, refl, suc, ℕ, ◌++◌, ◌+◌, ◌<◌, ◌^◌, ◌∷◌, ◌≡◌, ◌≤◌,
}
use close.Logs.Message.{LogMsg}
use close.Logs.Follower.{Follower, Turn, arrives, forward, logs_buffer, run, take_msg, takes, turn}

abbrev pub arrivals : List Turn → ℕ
arrivals [] = 0
arrivals (arrives msg ∷ ts) = suc (arrivals ts)
arrivals (takes ∷ ts) = arrivals ts

-- messages that were handed on, and those that they say were dropped before them
abbrev pub accounted : List LogMsg → ℕ
accounted [] = 0
accounted (m ∷ ms) = suc (m.dropped + accounted ms)

accounted-append : (ms ns : List LogMsg) → accounted (ms ++ ns) ≡ accounted ms + accounted ns
accounted-append [] ns = omega arith
accounted-append (m ∷ ms) ns = omega (arith, accounted-append ms ns)

abbrev seen : Follower → ℕ
seen f = accounted f.taken + accounted f.buffer + f.drops

forward-seen :
    (f : Follower) (msg : LogMsg)
    → f.drops + 1 < 2 ^ 64
    → (length f.buffer ≤ logs_buffer)
    → (seen (forward msg f) ≡ suc (seen f)) × (length (forward msg f).buffer ≤ logs_buffer)
unfolding forward
forward-seen f msg h b =
    let msg' : LogMsg = record msg { dropped = f.drops } in
    ground (arith, accounted-append f.buffer (msg' ∷ []), length-append f.buffer (msg' ∷ []))

take_msg-seen :
    (ms : List LogMsg) (f : Follower)
    → f.buffer ≡ ms
    → length f.buffer ≤ logs_buffer
    → (seen (take_msg ms f) ≡ seen f) × (length (take_msg ms f).buffer ≤ logs_buffer)
unfolding take_msg
take_msg-seen [] f e b = (refl, b)
take_msg-seen (m ∷ ms) f e b = (
  omega (arith, accounted-append f.taken (m ∷ []), ap accounted e),
  omega (arith, ap (length {A = LogMsg}) e),
)

-- Every message that arrived is on its way or taken, or counted as dropped: in the message handed on
-- after it, or by the follower. No more than 100 messages are on their way.
pub run_accounts :
    (ts : List Turn) (f : Follower)
    → seen f + arrivals ts < 2 ^ 64
    → length f.buffer ≤ logs_buffer
    → (accounted (run f ts).taken + accounted (run f ts).buffer + (run f ts).drops
        ≡ seen f + arrivals ts)
      × (length (run f ts).buffer ≤ logs_buffer)
unfolding run turn
run_accounts [] f h b = (omega arith, b)
run_accounts (arrives msg ∷ ts) f h b =
    let (e, b') = forward-seen f msg (omega arith) b in
    let (e', b'') = run_accounts ts (forward msg f) (omega (arith, e)) b' in
    (omega (arith, e, e'), b'')
run_accounts (takes ∷ ts) f h b =
    let (e, b') = take_msg-seen f.buffer f refl b in
    let (e', b'') = run_accounts ts (take_msg f.buffer f) (omega (arith, e)) b' in
    (omega (arith, e, e'), b'')
