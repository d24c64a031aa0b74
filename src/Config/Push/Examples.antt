-- ===== src/Config/Push/Examples.antt =====
-- A worker that accepts a push and rejects the next one.
use close.Prelude.{
  Assoc, Exec, List, Option, String, [], if◌then◌else◌, insert, lookup, lookup-insert, none, refl,
  some, str_eq, ℕ, ◌∷◌, ◌≡◌,
}
use close.Config.Sub.{handle_push, set}
use close.Config.Sub.Examples.{store}
use close.Config.Push.{ConfigPush, PushError, answered, apply, serve, unmarshal}
use close.Config.Push.Answers.{serve_stores}

abbrev decode : String → Option String
decode json = if str_eq json "bad" then none else some json

abbrev worker : Option (ConfigPush → Exec ℕ (PushError String) String)
worker = some (unmarshal decode)

abbrev pushes : List (ConfigPush × ℕ)
pushes = (record { config = some "{1}" }, 1) ∷ (record { config = some "bad" }, 2) ∷ []

pub stored_back :
    (json : String) (expiry : ℕ) (s : Assoc String)
    → lookup "close/ping/1" (insert "close/ping/1" json s) ≡ some json
stored_back json expiry s = lookup-insert "close/ping/1" "close/ping/1" json s

abbrev served : ℕ × Assoc String
served = (0, ("close/ping/1", "{1}") ∷ [])

served_pushes : serve store "close/ping/1" 9 worker (λ json. some json) pushes 0 [] ≡ some served
unfolding serve apply answered unmarshal handle_push set insert
served_pushes = refl

serve_stores_example : lookup "close/ping/1" served.1 ≡ some "{1}"
unfolding apply unmarshal
serve_stores_example =
    serve_stores worker (λ json. some json) store "close/ping/1" 9 (lookup "close/ping/1") pushes 0
      [] served stored_back served_pushes
