-- ===== src/Logs/Message.antt =====
-- logs/msg.go and logs/writer.go: a message, and how a written line becomes one.
use Prim.Native.Char.{code}
use close.Prelude.{String, if◌then◌else◌, str_eq, ℕ, ◌&&◌, ◌==◌}

pub record LogMsg : Type 0 where
  pub line : String
  pub dropped : ℕ  -- uint

-- `strings.TrimRight(line, "\n")`
unfoldable pub trim_right : String → String
trim_right String.[] = String.[]
trim_right (String.◌∷◌ c s) =
    let rest = trim_right s in
    if code c == b'\n' && str_eq rest "" then String.[] else String.◌∷◌ c rest

-- `logWriter.Write`: what goes into `writeChan`
unfoldable pub write : String → LogMsg
unfolding trim_right
write line = record { line = trim_right line; dropped = 0 }
