-- ===== src/Handshake.antt =====
-- main.go: what `wsHandler` reads off the parameters of a handshake, `parseCaps` and
-- `platformFromDeviceID`.
pub mod Admission
pub mod Laws
pub mod Origin
mod Tests
use clip_sync_server.Base.{
  ◌&&◌, Bool, List, Option, Text, [], codes, if◌then◌else◌, is_empty, none, not, same, some, true,
  ◌∷◌,
}
use clip_sync_server.Text.{cut, has_prefix, split_on, to_lower, trim_space}

-- `m[k] = v` on a map, which is the list of its entries.
unfoldable pub put_cap : Text → Bool → List (Text × Bool) → List (Text × Bool)
put_cap k v [] = (k, v) ∷ []
put_cap k v ((j, w) ∷ caps) =
    let rest = put_cap k v caps in if same j k then (j, v) ∷ caps else (j, w) ∷ rest

abbrev pub is_switched_on : Text → Bool
is_switched_on v = not (same v (codes "0")) && not (same v (codes "false"))

abbrev pub put_trimmed : Text → Text → List (Text × Bool) → List (Text × Bool)
put_trimmed k v caps = if is_empty k then caps else put_cap k (is_switched_on v) caps

abbrev pub add_cut : Text → Option (Text × Text) → List (Text × Bool) → List (Text × Bool)
add_cut item none caps = put_cap item true caps
add_cut item (some (k, v)) caps = put_trimmed (trim_space k) (trim_space v) caps

-- One round of the loop.
unfoldable pub add_item : Text → List (Text × Bool) → List (Text × Bool)
add_item raw_item caps =
    let item = trim_space raw_item in
    if is_empty item then caps else add_cut item (cut b'=' item) caps

unfoldable pub add_items : List Text → List (Text × Bool) → List (Text × Bool)
add_items [] caps = caps
add_items (item ∷ items) caps = add_items items (add_item item caps)

unfoldable pub parse_caps : Text → List (Text × Bool)
parse_caps s = if is_empty s then [] else add_items (split_on b',' s) []

unfoldable pub platform_from_device_id : Text → Text
platform_from_device_id device_id =
    let low = to_lower device_id in
    if has_prefix (codes "mac-") low
    then codes "mac"
    else if has_prefix (codes "win-") low
    then codes "windows"
    else if has_prefix (codes "android-") low
    then codes "android"
    else if has_prefix (codes "ios-") low
    then codes "ios"
    else if has_prefix (codes "linux-") low
    then codes "linux"
    else codes "unknown"
