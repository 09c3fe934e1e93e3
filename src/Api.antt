-- ===== src/Api.antt =====
-- The generated code of api/core and api/backendapi: how the two servers route requests (Core, Backend),
-- and the client with which the core calls a backend (Client).
pub mod Routing
pub mod Client
pub mod CoreClient
pub mod Transport
