-- ===== src/Ticketmaster.antt =====
-- internal/ticketmaster: the client of the Discovery API. The normalised event (types.go) that the
-- rest of the program reads, its making (Snapshot), and the requests (Client).
pub mod Types
pub mod Snapshot
pub mod Client
mod Tests
