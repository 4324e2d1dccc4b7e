-- ===== src/Store.antt =====
-- internal/store: the database's rows (db/models.go), its statements (db/queries.sql.go), and the
-- conversions of convert.go, which a nullable column's `Option` makes identities.
pub mod Models
pub mod Query
pub mod Watches
pub mod Events
pub mod Users
pub mod Claims
pub mod Ids
pub mod Owners
pub mod Ownership
