-- ===== src/Ftp.antt =====
-- internal/adapter/ftp/adapter.go. The client library is a parameter: what it answers is an argument.
pub mod Address
pub mod Range
mod Tests
