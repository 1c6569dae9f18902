-- ===== src/Handshake/Tests.antt =====
-- main.go, the handshake: tests, and the theorems at the parameters of a phone.
use clip_sync_server.Base.{Text, [], codes, false, is_empty, refl, same, some, true, ◌∷◌, ◌≡◌}
use clip_sync_server.Handshake.{add_item, add_items, parse_caps, platform_from_device_id, put_cap}
use clip_sync_server.Text.{
  cut, has_prefix, is_space, lower_rune, split_on, to_lower, trim_left, trim_right, trim_space,
}
use clip_sync_server.Handshake.Origin.{check_origin}

abbrev caps_query : Text
caps_query = codes "clip_up=0, sms_in=1,auto_put"

caps : Unit {0}
unfolding parse_caps split_on add_items add_item put_cap trim_space trim_left trim_right is_space
    cut same
caps = tt

parse_caps_test :
    parse_caps caps_query
    ≡ (codes "clip_up", false) ∷ (codes "sms_in", true) ∷ (codes "auto_put", true) ∷ []
unfolding caps
parse_caps_test = refl

platform_test : platform_from_device_id (codes "Mac-1a2b") ≡ codes "mac"
unfolding platform_from_device_id to_lower lower_rune has_prefix
platform_test = refl

item_there : is_empty (trim_space (codes " a=0")) ≡ false
unfolding caps
item_there = refl

item_cut : cut b'=' (trim_space (codes " a=0")) ≡ some (codes "a", codes "0")
unfolding caps
item_cut = refl

name_there : is_empty (trim_space (codes "a")) ≡ false
unfolding caps
name_there = refl

other_origin_test : check_origin false (codes "https://example.org") ≡ false
unfolding check_origin has_prefix
other_origin_test = refl
