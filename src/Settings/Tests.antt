-- ===== src/Settings/Tests.antt =====
-- config.go, logger.go, main.go: tests.
use clip_sync_server.Settings.{
  ClientAddress, before_last_colon, extract_ip, level_info, level_warn, parse_bool, parse_level,
}
use clip_sync_server.Base.{[], codes, false, none, refl, same, some, true, ◌≡◌}
use clip_sync_server.Text.{cut, is_space, lower_rune, to_lower, trim_left, trim_right, trim_space}

settings : Unit {0}
unfolding parse_bool parse_level same to_lower lower_rune trim_space trim_left trim_right is_space
    extract_ip cut before_last_colon
settings = tt

parse_bool_test :
    (parse_bool (codes "true") ≡ some true)
    × (parse_bool (codes "0") ≡ some false)
    × (parse_bool (codes "yes") ≡ none)
unfolding settings
parse_bool_test = (refl, refl, refl)

parse_level_test :
    (parse_level (codes " WARNING") ≡ level_warn) × (parse_level (codes "loud") ≡ level_info)
unfolding settings
parse_level_test = (refl, refl)

abbrev peer : ClientAddress
peer = record {
  forwarded_for = codes "10.1.1.1, 10.2.2.2";
  real_ip = [];
  remote_addr = codes "1.2.3.4:5678";
}

-- Without a trusted proxy the headers do not count.
extract_ip_test :
    (extract_ip true peer ≡ codes "10.1.1.1") × (extract_ip false peer ≡ codes "1.2.3.4")
unfolding settings
extract_ip_test = (refl, refl)
