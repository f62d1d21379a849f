-- ===== src/Api.antt =====
-- mtglib/proxy_api.go, the parsers of mtglib/secret_limits.go and reloadHandler of
-- mtglib/proxy_stats.go: the management API. A request is what the router hands to a handler, its
-- body as the JSON decoder leaves it; a response is a status and what is written as JSON.
pub mod Limits
pub mod Requests
pub mod Info
pub mod Answers
pub mod Reads
pub mod Authorised
mod Runs
