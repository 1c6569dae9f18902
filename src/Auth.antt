-- ===== src/Auth.antt =====
-- store_mysql.go, store_redis.go, auth_service.go: accounts, sessions, tokens.
pub mod Store
pub mod Redis
pub mod Cache
pub mod Service
pub mod Change
pub mod CacheLaws
pub mod Tokens
pub mod Revocation
pub mod Password
pub mod Accounts
pub mod Memory
pub mod Startup
mod Tests
