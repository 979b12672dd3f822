-- ===== src/Web.antt =====
-- crates/sutegi-web: the router, the request service and the form decoder.
pub mod Router
pub mod Service
pub mod Form
mod Examples
