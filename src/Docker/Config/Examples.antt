-- ===== src/Docker/Config/Examples.antt =====
-- A configuration with one environment variable, against the daemon's with one more.
use close.Prelude.{[], refl, str_lt, true, ◌↔◌, ◌∷◌, ◌≡◌}
use close.Docker.Config.{Config, config_equals, empty_config}
use close.Docker.Config.Compatible.{IsCompatible, config_equals_iff}

abbrev wanted : Config
wanted = record (empty_config) { image = "close"; env = "A=1" ∷ []; constraints = "node==x" ∷ [] }

abbrev found : Config
found = record (wanted) { env = "A=1" ∷ "PATH=/bin" ∷ [] }

config_equals_iff_example : (config_equals wanted found ≡ true) ↔ IsCompatible wanted found
unfolding str_lt
config_equals_iff_example = config_equals_iff wanted found (tt, tt) ((refl, tt), (tt, tt))
