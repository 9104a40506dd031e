-- ===== src/Json.antt =====
-- src/tools/json.rs: the JSON codec of the tools. A String is the list of its characters, a text that
-- is parsed or written the list of its bytes.
pub mod Utf8
pub mod Types
pub mod Numbers
pub mod Strings
pub mod Scan
pub mod Parser
pub mod Writer
pub mod Grammar
pub mod Tokens
pub mod Decimals
pub mod Openings
pub mod Rounds
pub mod Reading
pub mod Ordered
pub mod RoundTrip
pub mod Lookup
pub mod Fuel
pub mod Shrinks
pub mod Ends
mod Examples
