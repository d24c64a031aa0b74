-- ===== src/Control/Auth.antt =====
-- control/auth.go: the users of the web interface.
use close.Prelude.{Bool, List, String, [], false, if◌then◌else◌, str_eq, ◌∷◌}

pub record User : Type 0 where
  pub id : String
  pub password : String

-- `authenticate`, by the users of the configuration: the first one with the ID decides
unfoldable pub authenticate : List User → String → String → Bool
authenticate [] given_id given_password = false
authenticate (user ∷ users) given_id given_password =
    if str_eq user.id given_id
    then str_eq user.password given_password
    else authenticate users given_id given_password
