-- ===== src/Service.antt =====
-- internal/service: what the HTTP interface calls, for the user whose token it has checked.
pub mod Watch
pub mod Auth
pub mod Account
pub mod Requests
pub mod Notifications
