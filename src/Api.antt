-- ===== src/Api.antt =====
-- The HTTP and gRPC interface of a node, internal/api.
pub mod Responses
pub mod Replies
pub mod Auth
pub mod Middleware
pub mod Http
pub mod Grpc
pub mod Routes
pub mod Agreement
