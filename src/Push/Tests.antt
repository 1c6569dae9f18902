-- ===== src/Push/Tests.antt =====
-- main.go: a push of one user with a computer online.
use clip_sync_server.Base.{
  ◌&&◌, [], codes, if◌then◌else◌, err, false, is_empty, map, none, ok, refl, same, some, true, ℕ,
  ◌∷◌, ◌≡◌,
}
use clip_sync_server.Auth.Service.{AuthState, authenticate_token}
use clip_sync_server.Hub.Conn.{Client, has_room, is_active, raw, role_pc, try_send}
use clip_sync_server.Http.{HttpRequest, bearer_token}
use clip_sync_server.Hub.Invariant.{IsValid}
use clip_sync_server.Push.{
  PushBody, PushCodec, PushState, push_handler, push_message, with_defaults,
}
use clip_sync_server.Cleaning.{
  blocks, clean, first_number, leading_bracket, merge_count1, merge_count2, remove_all,
  sanitize_sms_payload, sender_of, skip_blanks, skip_ellipsis, strip_numbers,
}
use clip_sync_server.Auth.Cache.{cache_token, lookup_token}
use clip_sync_server.Auth.Memory.{config, exact, memory, plain_crypto}
use clip_sync_server.Text.{cut, has_prefix, is_space, trim_left, trim_right, trim_space}
use clip_sync_server.Cleaning.Preview.{ensure_preview, preview_limit, truncate_preview}
use clip_sync_server.Hub.Steps.{feed}
use clip_sync_server.Hub.Loop.{for_each, total}
use clip_sync_server.Hub.Delivery.{is_push_target}
use clip_sync_server.Hub.Route.{push, push_one, target_role_for_type, is_refused}
use clip_sync_server.Push.Forwarding.{push_handler_closed, push_handler_forwards, pushed}

abbrev desk : Client
desk = record {
  id = 1;
  token = [];
  device_id = codes "pc-1";
  role = role_pc;
  ip = [];
  send = [];
  capacity = 2;
  send_closed = false;
  user_id = 7;
  online_at = 5;
  platform = [];
  name = [];
  caps = [];
  replaced = false;
  grace = false;
  timer = false;
  conn_open = true;
  written = [];
  member = true;
}

abbrev post : HttpRequest
post = record { is_post = true; ip = []; authorization = []; query_token = codes "t1" }

abbrev body : PushBody
body = record {
  type = [];
  fields = record { kind = []; mime = []; text = codes " code 1234 "; preview = []; sender = [] };
  content = [];
}

abbrev as_text_alone : PushCodec
as_text_alone = record { payload = λ p content. p.preview; message = λ m. m.payload }

abbrev signed_in : AuthState memory exact plain_crypto config
signed_in = record {
  db = record { users = []; sessions = []; fails = λ stmt. false };
  cache = (cache_token memory (codes "t1") 7 60 ((λ k. none), λ u. [])).0;
  published = [];
}

pushes : Unit {0}
unfolding push_handler bearer_token has_prefix authenticate_token lookup_token cache_token same
    with_defaults push is_refused push_one push_message for_each try_send target_role_for_type
    sanitize_sms_payload sender_of blocks first_number clean strip_numbers leading_bracket
    skip_blanks remove_all merge_count1 merge_count2 skip_ellipsis trim_space trim_left trim_right
    is_space cut ensure_preview truncate_preview preview_limit
pushes = tt

token_given : is_empty (bearer_token post) ≡ false
unfolding pushes
token_given = refl

known_user :
    authenticate_token memory exact plain_crypto config 9 (bearer_token post) signed_in
    ≡ (signed_in, ok (7, []))
unfolding pushes
known_user = refl

sound_hub : IsValid (desk ∷ [])
sound_hub = record {
  sound = (record { open_channel = refl; replaced_left = refl; timed = refl }, tt);
  apart = (tt, tt);
}

-- The text is cleaned before the preview is made of it.
forwarded_test :
    push_handler memory exact plain_crypto config as_text_alone false 0 9 [] post
      (some body)
      (record { auth = signed_in; world = desk ∷ [] })
    ≡ some (
      record { auth = signed_in; world = record desk { send = raw (codes "code 1234") ∷ [] } ∷ [] },
      ok (1, 1),
    )
unfolding pushes
forwarded_test = refl

push_handler_forwards_example :
    push_handler memory exact plain_crypto config as_text_alone false 0 9 [] post
      (some body)
      (record { auth = signed_in; world = desk ∷ [] })
    ≡ some (
      record {
        auth = signed_in;
        world =
            map
              (feed
                (is_push_target 7
                  (pushed memory exact plain_crypto config as_text_alone 0 9 [] body).type)
                (λ _.
                  raw (pushed memory exact plain_crypto config as_text_alone 0 9 [] body).payload))
              (desk ∷ []);
      },
      ok (
        total
            (λ c.
              if is_push_target 7
                  (pushed memory exact plain_crypto config as_text_alone 0 9 [] body).type
                  c
                && has_room c
              then 1
              else 0)
            (desk ∷ []),
        total (λ c. if is_active 7 c then 1 else 0) (desk ∷ []),
      ),
    )
push_handler_forwards_example =
    push_handler_forwards memory exact plain_crypto config as_text_alone 0 9 7 [] [] post body
      (record { auth = signed_in; world = desk ∷ [] }) signed_in refl token_given known_user
      sound_hub

push_handler_closed_example :
    (s' : PushState memory exact plain_crypto config as_text_alone true 0) × (n : ℕ) × (push_handler
        memory exact plain_crypto config as_text_alone true 0 9 [] post
        (some body)
        (record { auth = signed_in; world = desk ∷ [] })
      ≡ some (s', err n))
    × (s'.world ≡ desk ∷ [])
push_handler_closed_example =
    push_handler_closed memory exact plain_crypto config as_text_alone 0 9 [] post (some body)
      (record { auth = signed_in; world = desk ∷ [] })
