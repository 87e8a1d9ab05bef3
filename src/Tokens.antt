-- ===== src/Tokens.antt =====
-- internal/engine/auth.go: the validation of JSON web tokens with the cache of the keys that sign them, and the
-- introspection of OAuth tokens with its cache. A time is a number of nanoseconds.
pub mod Types
pub mod Keys
pub mod Signature
pub mod Jwt
pub mod Introspection
mod Tests
