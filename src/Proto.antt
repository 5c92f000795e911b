-- ===== src/Proto.antt =====
-- game-server-hosting/server/proto: what the query protocols share.
-- `Challenge` is base.go, `Wire` is query.go; `Responder` is the state that a responder passes on.
pub mod Challenge
pub mod Wire
pub mod Responder
pub mod Errors
