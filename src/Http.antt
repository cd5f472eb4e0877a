-- ===== src/Http.antt =====
-- `ProviderHTTPClient` of adapters/http.py.
pub mod World
pub mod Headers
pub mod Payload
pub mod Client
pub mod Fetch
pub mod Steps
pub mod Conversation
pub mod Requests
pub mod Keeping
pub mod Identity
pub mod Pacing
pub mod Sleeping
mod Examples
