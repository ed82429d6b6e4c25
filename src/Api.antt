-- ===== src/Api.antt =====
-- server/api/: the HTTP interface through which applications send notifications.
pub mod Errors
pub mod Requests
pub mod PendingStore
pub mod Handlers
pub mod Serve
pub mod Notify
pub mod Quota
pub mod Laws
pub mod Broadcasts
