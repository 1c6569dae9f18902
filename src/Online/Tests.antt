-- ===== src/Online/Tests.antt =====
-- main.go: the register of devices online, at a phone that connects again.
use clip_sync_server.Base.{
  ◌&&◌, ◌==◌, [], any, codes, false, none, refl, same, some, true, ℕ, ◌∷◌, ◌≡◌,
}
use clip_sync_server.Hub.Conn.{Client, role_mobile}
use clip_sync_server.Online.{
  Site, is_alive, join_hub, keep_interval, keep_online, leave_hub, online_ttl, sign_off, sign_on,
}
use clip_sync_server.Hub.Members.{enter, is_stale, leave_one, retire, unregister}
use clip_sync_server.Online.Race.{replaced_stays_online, sign_off_race}
use clip_sync_server.Auth.Cache.{mark_offline, mark_online}
use clip_sync_server.Auth.Memory.{memory}

abbrev conn : ℕ → Client
conn id = record {
  id = id;
  token = [];
  device_id = codes "mobile-1";
  role = role_mobile;
  ip = [];
  send = [];
  capacity = 2;
  send_closed = false;
  user_id = 7;
  online_at = 5;
  platform = [];
  name = [];
  caps = [];
  replaced = false;
  grace = false;
  timer = false;
  conn_open = true;
  written = [];
  member = false;
}

-- The first connection of the phone is in the hub and in the register.
abbrev connected : Site memory
connected = record {
  world = record (conn 1) { member = true } ∷ [];
  cache = (mark_online memory 7 (codes "mobile-1") role_mobile 90 ((λ k. none), λ u. [])).0;
}

register : Unit {0}
unfolding mark_online mark_offline is_stale same sign_on sign_off join_hub leave_hub enter retire
    unregister leave_one keep_online online_ttl keep_interval
register = tt

marks : (mark_online memory 7 (codes "mobile-1") role_mobile 90 connected.cache).1 ≡ true
unfolding register
marks = refl

stale_now : any (λ d. d.id == 1 && is_stale (conn 2) d) connected.world ≡ true
unfolding register
stale_now = refl

-- The register has been lost.
abbrev emptied : Site memory
emptied = record connected { cache = ((λ k. none), λ u. []) }

marks_again : (mark_online memory 7 (codes "mobile-1") role_mobile 90 emptied.cache).1 ≡ true
unfolding register
marks_again = refl

abbrev marked : Site memory
marked = sign_on memory 90 (conn 2) connected

removes : (mark_offline memory 7 (codes "mobile-1") marked.cache).1 ≡ true
unfolding register
removes = refl

abbrev after_race : Site memory
after_race =
    join_hub memory (conn 2) (sign_off memory 1 7 (codes "mobile-1") (leave_hub memory 1 marked))

replaced_stays_online_example :
    memory.field 7
      (codes "mobile-1")
      (sign_off memory 1 7 (codes "mobile-1") (
        leave_hub memory 1 (join_hub memory (conn 2) (sign_on memory 90 (conn 2) connected)))).cache
    ≡ some role_mobile
replaced_stays_online_example = replaced_stays_online memory 90 1 (conn 2) connected stale_now marks

sign_off_race_example :
    (is_alive 2 after_race.world ≡ true)
    × (memory.field 7 (codes "mobile-1") after_race.cache ≡ none)
sign_off_race_example = sign_off_race memory 90 1 (conn 2) connected refl refl removes

defaults :
    (online_ttl 0 ≡ 90)
    × (online_ttl 30 ≡ 30)
    × (keep_interval 2 ≡ 1000000000)
    × (keep_interval 90 ≡ 30000000000)
unfolding register
defaults = (refl, refl, refl, refl)
