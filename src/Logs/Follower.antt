-- ===== src/Logs/Follower.antt =====
-- logs/follower.go: the goroutine that hands messages on without waiting. Its two turns are a message
-- that arrives and the consumer's taking of one.
pub mod Conservation
use close.Prelude.{List, [], if◌then◌else◌, length, ltb, u64, ℕ, ◌++◌, ◌+◌, ◌∷◌}
use close.Logs.Message.{LogMsg}

-- `LOGS_BUFFER`
abbrev pub logs_buffer : ℕ
logs_buffer = 100

pub record Follower : Type 0 where
  pub drops : ℕ  -- uint
  pub buffer : List LogMsg  -- in `writeChan`
  pub taken : List LogMsg  -- out of it

abbrev pub new_follower : Follower
new_follower = record { drops = 0; buffer = []; taken = [] }

pub data Turn : Type 0 where
  arrives : LogMsg → Turn
  takes : Turn

-- the body of the range, with the select that does not block
unfoldable pub forward : LogMsg → Follower → Follower
forward msg f =
    let msg' : LogMsg = record msg { dropped = f.drops } in
    if ltb (length f.buffer) logs_buffer
    then record f { buffer = f.buffer ++ msg' ∷ []; drops = 0 }
    else record f { drops = u64 (f.drops + 1) }

unfoldable pub take_msg : List LogMsg → Follower → Follower
take_msg [] f = f
take_msg (m ∷ ms) f = record f { buffer = ms; taken = f.taken ++ m ∷ [] }

unfoldable pub turn : Follower → Turn → Follower
unfolding forward take_msg
turn f (arrives msg) = forward msg f
turn f takes = take_msg f.buffer f

unfoldable pub run : Follower → List Turn → Follower
unfolding turn
run f [] = f
run f (t ∷ ts) = run (turn f t) ts
