-- ===== src/Hub/Tests.antt =====
-- main.go, the hub: tests, and the theorems at a user with a phone and a computer.
use clip_sync_server.Base.{
  ◌&&◌, ◌++◌, Text, [], arith, codes, if◌then◌else◌, false, map, refl, same, some, true, ℕ, ◌∷◌,
  ◌≡◌,
}
use clip_sync_server.Hub.Conn.{
  Client, World, enqueue, has_room, is_active, raw, role_mobile, role_pc, try_send,
}
use clip_sync_server.Hub.Steps.{IsFresh, IsNew, feed}
use clip_sync_server.Hub.Invariant.{IsValid}
use clip_sync_server.Hub.Loop.{for_each, total}
use clip_sync_server.Hub.Safety.{Reach, Reach-IsValid, Reach-act, starts, steps}
use clip_sync_server.Hub.Reach.{act, enters, leaves}
use clip_sync_server.Hub.Broadcast.{announced}
use clip_sync_server.Hub.Presence.{group, presence_for}
use clip_sync_server.Hub.Grace.{departed, departure, dropped, quiet_reconnect, rejoined, superseded}
use clip_sync_server.Hub.Members.{
  enter, finalize_grace, is_stale, register, retire, unregister, replaces_grace,
}
use clip_sync_server.Hub.Delivery.{is_addressee, route-map}
use clip_sync_server.Hub.Route.{
  is_refused, route, route_one, target_role_for_type, type_clipboard, type_notify_pc,
}
use clip_sync_server.Hub.Join.{joined}

-- A connection of user 7, as `wsHandler` builds it.
abbrev pub conn : ℕ → Text → Text → Client
conn id device role = record {
  id = id;
  token = [];
  device_id = device;
  role = role;
  ip = [];
  send = [];
  capacity = 2;
  send_closed = false;
  user_id = 7;
  online_at = 5;
  platform = [];
  name = [];
  caps = [];
  replaced = false;
  grace = false;
  timer = false;
  conn_open = true;
  written = [];
  member = false;
}

abbrev pub pixel : Text
pixel = codes "mobile-1"

abbrev desk : Text
desk = codes "pc-1"

abbrev pub phone : Client
phone = joined (conn 1 pixel role_mobile)

abbrev pc : Client
pc = joined (conn 2 desk role_pc)

abbrev phone_again : Client
phone_again = conn 3 pixel role_mobile

abbrev both : World
both = phone ∷ pc ∷ []

-- The phone has lost its connection.
abbrev away : World
away = dropped phone ∷ pc ∷ []

IsFresh-conn : (id : ℕ) (device role : Text) → IsFresh (conn id device role)
IsFresh-conn id device role = record {
  open_channel = refl;
  not_replaced = refl;
  not_grace = refl;
  no_timer = refl;
  outside = refl;
}

IsValid-both : IsValid both
unfolding same
IsValid-both = record {
  sound = (
    record { open_channel = refl; replaced_left = refl; timed = refl },
    (record { open_channel = refl; replaced_left = refl; timed = refl }, tt),
  );
  apart = ((((λ e. omega (arith, e)), refl), tt), (tt, tt));
}

IsValid-away : IsValid away
unfolding same
IsValid-away = record {
  sound = (
    record { open_channel = refl; replaced_left = refl; timed = refl },
    (record { open_channel = refl; replaced_left = refl; timed = refl }, tt),
  );
  apart = ((((λ e. omega (arith, e)), refl), tt), (tt, tt));
}

IsNew-again : IsNew phone_again both
IsNew-again = ((λ e. omega (arith, e)), ((λ e. omega (arith, e)), tt))

IsNew-away : IsNew phone_again away
IsNew-away = ((λ e. omega (arith, e)), ((λ e. omega (arith, e)), tt))

Reach-phone : Reach (enter (conn 1 pixel role_mobile) [])
unfolding act
Reach-phone =
    steps (enters (conn 1 pixel role_mobile)) _ starts (IsFresh-conn 1 pixel role_mobile, tt) refl

-- A message for the computer comes from the phone, and the phone's queue stays empty.
route_test :
    route phone type_notify_pc (1 ∷ []) both
    ≡ some (record { world = phone ∷ enqueue (raw (1 ∷ [])) pc ∷ []; dispatched = 1; online = 2 })
unfolding route for_each route_one is_refused target_role_for_type same try_send
route_test = refl

supersede_test : enter phone_again away ≡ superseded phone ∷ pc ∷ joined phone_again ∷ []
unfolding enter retire is_stale same
supersede_test = refl

Reach-act_example :
    (w' : World) × (act (leaves 1) (enter (conn 1 pixel role_mobile) []) ≡ some w') × Reach w'
Reach-act_example = Reach-act (leaves 1) Reach-phone tt

Reach-IsValid_example : IsValid (enter (conn 1 pixel role_mobile) [])
Reach-IsValid_example = Reach-IsValid Reach-phone

route-map_example :
    route phone type_clipboard (1 ∷ []) both
    ≡ some (record {
      world = map (feed (is_addressee phone type_clipboard) (λ _. raw (1 ∷ []))) both;
      dispatched =
          total (λ c. if is_addressee phone type_clipboard c && has_room c then 1 else 0) both;
      online = total (λ c. if is_active 7 c then 1 else 0) both;
    })
route-map_example = route-map phone type_clipboard (1 ∷ []) both IsValid-both

quiet_reconnect_example :
    register 9 phone_again (unregister 1 both)
    ≡ some (
        (superseded phone ∷ pc ∷ [])
        ++ enqueue
            (presence_for 9 (group 7 (rejoined [] (pc ∷ []) phone phone_again)) 3)
            (joined phone_again)
          ∷ [])
quiet_reconnect_example =
    quiet_reconnect 9 [] (pc ∷ []) phone phone_again IsValid-both refl
      (record { same_user = refl; same_device = refl }) (IsFresh-conn 3 pixel role_mobile)
      IsNew-again

departure_example :
    finalize_grace 9 7 1 (unregister 1 both)
    ≡ some (map (announced 9 7 (group 7 (departed phone ∷ pc ∷ []))) (departed phone ∷ pc ∷ []))
departure_example = departure 9 [] (pc ∷ []) phone IsValid-both refl

grace_test : replaces_grace phone_again away ≡ true
unfolding replaces_grace is_stale same
grace_test = refl

no_grace_test : replaces_grace phone_again both ≡ false
unfolding replaces_grace is_stale same
no_grace_test = refl
