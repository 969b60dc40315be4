-- ===== src/Http.antt =====
-- internal/adapter/http/adapter.go: what the adapter makes of a response. net/http does the request; a
-- response is its status, its headers by name ([] where there is none) and its length, -1 if unknown,
-- as an int64 bit pattern.
pub mod Filename
pub mod Probe
pub mod Range
pub mod Request
pub mod Sequential
pub mod Redirect
mod Tests
