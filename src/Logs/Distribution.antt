-- ===== src/Logs/Distribution.antt =====
-- logs/logs.go: the goroutine that keeps the history and the subscribers. A channel is its number; it
-- keeps what was sent into it. A follower's goroutine takes what is sent without end, so a send does
-- not wait. Sending into, or closing, a channel that is closed panics: the result is none.
pub mod Delivery
pub mod Closing
use close.Prelude.{
  Bool, List, Option, [], false, if◌then◌else◌, none, some, suc, true, ℕ, ◌++◌, ◌==◌, ◌∷◌,
}
use close.Logs.Message.{LogMsg}

pub record Channel : Type 0 where
  pub sent : List LogMsg
  pub closed : Bool

abbrev pub new_channel : Channel
new_channel = record { sent = []; closed = false }

-- the variables of `run`, and the channels by their numbers
pub record Logs : Type 0 where
  pub history : List LogMsg
  pub subscribers : List ℕ
  pub channels : ℕ → Channel
  pub made : ℕ  -- how many channels there are

-- `New`
abbrev pub new_logs : Logs
new_logs = record { history = []; subscribers = []; channels = λ c. new_channel; made = 0 }

unfoldable pub change : ℕ → Channel → (ℕ → Channel) → ℕ → Channel
change c x channels i = if i == c then x else channels i

-- `writeChan <- msg`
unfoldable pub send : LogMsg → ℕ → (ℕ → Channel) → Option (ℕ → Channel)
unfolding change
send msg c channels =
    if (channels c).closed
    then none
    else some (change c (record (channels c) { sent = (channels c).sent ++ msg ∷ [] }) channels)

unfoldable pub and_then : {A B : Type 0} → Option A → (A → Option B) → Option B
and_then none f = none
and_then (some a) f = f a

-- the range over the subscribers
unfoldable pub broadcast : LogMsg → List ℕ → (ℕ → Channel) → Option (ℕ → Channel)
unfolding send and_then
broadcast msg [] channels = some channels
broadcast msg (c ∷ cs) channels = and_then (send msg c channels) (broadcast msg cs)

-- the range over the history
unfoldable pub replay : List LogMsg → ℕ → (ℕ → Channel) → Option (ℕ → Channel)
unfolding send and_then
replay [] c channels = some channels
replay (msg ∷ msgs) c channels = and_then (send msg c channels) (replay msgs c)

-- `delete(subscribers, writeChan)`
unfoldable pub unlist : ℕ → List ℕ → List ℕ
unlist c [] = []
unlist c (i ∷ is) = let rest = unlist c is in if i == c then rest else i ∷ rest

-- `close(writeChan)`
unfoldable pub close_channel : ℕ → (ℕ → Channel) → Option (ℕ → Channel)
unfolding change
close_channel c channels =
    if (channels c).closed
    then none
    else some (change c (record (channels c) { closed = true }) channels)

pub data Event : Type 0 where
  writes : LogMsg → Event
  follows : Event  -- `newFollower`, which makes the channel that it subscribes
  unfollows : ℕ → Event  -- `logFollower.close`

unfoldable pub with_channels : Logs → (ℕ → Channel) → Logs
with_channels s channels = record s { channels = channels }

unfoldable pub step : Logs → Event → Option Logs
unfolding broadcast replay unlist close_channel and_then with_channels
step s (writes msg) =
    let s' : Logs = record s { history = s.history ++ msg ∷ [] } in
    and_then (broadcast msg s.subscribers s.channels) (λ channels. some (with_channels s' channels))
step s follows =
    let s' : Logs = record s { subscribers = s.made ∷ s.subscribers; made = suc s.made } in
    and_then (replay s.history s.made (change s.made new_channel s.channels))
      (λ channels. some (with_channels s' channels))
step s (unfollows c) =
    let s' : Logs = record s { subscribers = unlist c s.subscribers } in
    and_then (close_channel c s.channels) (λ channels. some (with_channels s' channels))

-- `run`
unfoldable pub run : Logs → List Event → Option Logs
unfolding step and_then
run s [] = some s
run s (e ∷ es) = and_then (step s e) (λ s'. run s' es)
