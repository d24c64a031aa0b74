-- ===== src/Config/Redis/Examples.antt =====
-- The path of one configuration.
use close.Prelude.{ok, refl, true, ◌≡◌}
use close.Config.Id.{
  ConfigId, id_text, is_instance, is_word, match_id, match_instance, match_type, parse_id,
  some_instance, valid,
}
use close.Config.Redis.{path_base, sub_path}
use close.Config.Redis.Listing.{parse_id-sub_path}

abbrev ping : ConfigId
ping = record { type = "icmp_ping"; instance_name = "ping:1" }

ping-valid : valid ping ≡ true
unfolding valid match_id match_type some_instance match_instance is_word is_instance id_text
ping-valid = refl

parse_id-sub_path_example : parse_id "icmp_ping" (path_base (sub_path "close" ping)) ≡ ok ping
parse_id-sub_path_example = parse_id-sub_path "close" ping ping-valid
