-- ===== src/Lib.antt =====
-- ClipSync-Server: a relay for clipboards and short messages between the devices of one user. Each
-- device holds a WebSocket; the hub keeps the connections of each user and forwards frames among
-- them. Accounts, sessions and devices are in MySQL; tokens and who is online are in Redis.
--
-- Hub (main.go): `Client` is one connection, and a `World` the list of all connections ever made;
--   `member` says whether `hub.clients` holds it. Hub.Presence has `broadcastPresence` and
--   `sendPresenceTo`; Hub.Members has `register`, `unregister`, `finalizeGrace`, `renameDevice` and
--   the kicks; Hub.Route has `route`, the forwarding of `pushHandler`, and the pong of `readPump`.
--   A send on a closed channel is a panic, the result `none`. Hub.Reach puts what happens under one
--   hold of the lock into single steps (`act`), in any order; Hub.Safety is about all such runs.
--   Hub.Pump is `writePump` of one connection with what others put on its channel. A Go map is
--   ranged over in the order of the list, which is any order.
-- Handshake (main.go): `parseCaps` and `platformFromDeviceID`; Handshake.Admission has `wsHandler`
--   up to the new `Client`, over the tokens of Auth and the device check of Device;
--   Handshake.Origin is the check of the origin that `main` installs.
-- Online (main.go): the register in Redis beside the hub: `MarkOnline` in `wsHandler`, its deferred
--   function, and `keepOnline`, each as one step between which other goroutines run.
-- Inbound (e2ee.go, main.go): the gate on encryption and the loop of `readPump`, on top of the hub;
--   Inbound.Content puts the cleaning and the cache of short messages behind it.
-- Auth (store_mysql.go, store_redis.go, auth_service.go): Auth.Store has the tables and what each
--   SQL statement does to the rows; Auth.Redis is the interface of the Redis commands that are
--   used, with their laws; Auth.Cache has the operations of `RedisStore` on tokens; Auth.Service
--   (login, authentication, logout), Auth.Change (revocation, change of password) and Auth.Accounts
--   (registration) have `AuthService`; Auth.Startup has `bootstrapUser` and the purge. Hashing and
--   the random source are parameters.
-- Schema (store_mysql.go, store_device.go, store_apikey.go): `OpenMySQL` and the migrations, on the
--   names of the tables and their columns.
-- Http (auth_http.go): the handlers of login, registration, session, logout and password, which
--   answer with a status code. A body comes decoded.
-- Scrypt (auth_crypto.go): the format of a stored password; it fills the `Crypto` that Auth takes.
-- Admin (admin_http.go, store_redis.go, main.go, device_name_http.go): the commands of the
--   administrator, read from Redis (`run_command`) or from HTTP (`admin_kick`), over the sessions,
--   the device table and the hub together (`Server`); Admin.Web has the handlers that name, ban and
--   list devices and create users; Admin.Channel has what publishes a command and the subscriber,
--   over a channel that is the list of the messages that reach the subscriber: one that is
--   published while it is not connected is lost.
-- Device (store_device.go, admin_http.go, auth_service.go): the table of devices, the check at the
--   handshake (Device.Gate), deletion (Device.Remove, which kicks through the hub), and the list
--   for the administrator (Device.Listing, and its handler in Device.Pages).
-- Limit (auth_http.go): the login limiter; the open query uses it too.
-- Sms (openapi_http.go, store_apikey.go): the query of cached short messages with an API key, and
--   the creation, revocation and lists of keys (Sms.Keys).
-- Push (main.go): `pushHandler`, over Auth, Cleaning and the hub.
-- Settings (config.go, logger.go, main.go): the loading of the configuration, the overrides from
--   the environment, the level of the log and the address of a client.
-- Logs (logger.go): the file of today and the archives of the days before. A day is its number;
--   that archiving a file works is a parameter, and the clock runs in UTC. Logs.Names has the names
--   of the archives and the threshold of the log.
-- SmsCache (store_sms_cache.go, main.go): the messages of each user in a sorted set of Redis, whose
--   commands are an interface with their laws (`SortedSets`); SmsCache.History compares it with the
--   history of all messages; what is read of it is the parameter `recent_sms` of Sms.
-- Cleaning (main.go): the cleaning of a short message before it is forwarded, with the regular
--   expressions written out, the previews and the categories; Cleaning.Labels has the words of the
--   log.
-- Phone (openapi_http.go): the comparison of telephone numbers, which the query uses.
-- Base and Text hold what the others share: lists, texts as code points, and Go's string functions.
--
-- Numbers are natural: an ID, a time or a limit that Go could have below zero is zero where the
-- code treats both alike. No counter comes near the bounds of int64; Text.Decimal has those of
-- ParseInt. Loops are over lists, except those of Cleaning, which take fuel: the length of the
-- text is enough, since each round shortens it. An SQL statement either fails as a whole, with
-- the table as it was, or does what its text says; which ones fail is a parameter. A cached Redis
-- value is what a read finds at its moment: the laws say nothing of expiry.
--
-- Not modelled: what a payload holds beside the fields that the cleaning reads (encoding/json is a
-- parameter, and so `sanitize` is one of Inbound), the reading of YAML with the file that is built
-- in, the opening of Redis, the wiring of `main`, the console and the separate file of messages, the
-- time limits of contexts, and the log lines of the handlers, which have no part in the state.
pub mod Base
pub mod Hub
pub mod Text
pub mod Phone
pub mod Limit
pub mod Device
pub mod Auth
pub mod Admin
pub mod Handshake
pub mod Inbound
pub mod Online
pub mod Sms
pub mod SmsCache
pub mod Scrypt
pub mod Cleaning
pub mod Push
pub mod Settings
pub mod Logs
pub mod Http
pub mod Schema
