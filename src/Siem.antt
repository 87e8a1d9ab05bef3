-- ===== src/Siem.antt =====
-- internal/siem/siem.go: the buffer of events, its flushes to the exporters, and the format CEF. What an exporter
-- does with a batch is a call of HTTP and is left out; its error is only logged.
pub mod Manager
pub mod Handed
pub mod Delivery
pub mod Cef
mod Tests
