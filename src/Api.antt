-- ===== src/Api.antt =====
-- web/src/api.ts: the calls of the server's HTTP interface. The server is the parameter `fetch`:
-- each call is the request that it sends, and what it makes of the reply.
pub mod Types
pub mod Http
pub mod Fleet
pub mod Apps
pub mod Creds
pub mod Files
pub mod Notif
pub mod Errors
pub mod Laws
pub mod Tests
