-- ===== src/Transport.antt =====
-- src/transport: byte streams, HTTP/1.1 and its body encodings.
pub mod Chunked
pub mod Sse
pub mod Http
pub mod Connection
pub mod HttpClient
