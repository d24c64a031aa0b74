-- ===== src/Config/Id/Examples.antt =====
-- An identity as the manager makes it for a worker, and one with a slash in it.
use close.Prelude.{false, refl, true, ◌≡◌}
use close.Config.Id.{ConfigId, valid}

abbrev ping : ConfigId
ping = record { type = "icmp_ping"; instance_name = "test:1" }

ping-valid : valid ping ≡ true
unfolding valid
ping-valid = refl

slash_invalid : valid (record ping { instance_name = "test/1" }) ≡ false
unfolding valid
slash_invalid = refl
