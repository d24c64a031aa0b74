-- ===== src/Logs/Examples.antt =====
-- One follower, two lines, and a buffer.
use close.Prelude.{List, [], arith, false, length, none, ◌++◌, ◌+◌, ◌∷◌, ◌≡◌, ◌≤◌}
use close.Logs.Message.{LogMsg}
use close.Logs.Distribution as Distribution
use close.Logs.Distribution.{Logs, change, new_channel, new_logs, run, unfollows, writes}
use close.Logs.Distribution.Closing.{second_unfollow_panics}
use close.Logs.Follower as Follower
use close.Logs.Follower.{Follower, Turn, arrives, logs_buffer, new_follower, takes}
use close.Logs.Follower.Conservation.{accounted, run_accounts}

abbrev start_line : LogMsg
start_line = record { line = "start"; dropped = 0 }

abbrev one_follower : Distribution.Logs
one_follower = record {
  history = start_line ∷ start_line ∷ [];
  subscribers = 0 ∷ [];
  channels =
      Distribution.change 0 (record { sent = start_line ∷ start_line ∷ []; closed = false })
        (Distribution.change 0 (record { sent = start_line ∷ []; closed = false })
          (Distribution.change 0 Distribution.new_channel new_logs.channels));
  made = 1;
}

second_unfollow_panics_example :
    Distribution.run one_follower (unfollows 0 ∷ (writes start_line ∷ []) ++ unfollows 0 ∷ [])
    ≡ none
second_unfollow_panics_example =
    second_unfollow_panics 0 (writes start_line ∷ []) one_follower (omega arith)

abbrev turns : List Turn
turns = arrives start_line ∷ takes ∷ arrives start_line ∷ []

run_accounts_example :
    (accounted (Follower.run new_follower turns).taken
        + accounted (Follower.run new_follower turns).buffer
        + (Follower.run new_follower turns).drops
      ≡ 0 + 0 + 0 + 2)
    × (length (Follower.run new_follower turns).buffer ≤ logs_buffer)
run_accounts_example = run_accounts turns new_follower (omega arith) (omega arith)
