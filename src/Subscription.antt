-- ===== src/Subscription.antt =====
-- The tokens of subscription links, internal/subscription/token.go, and the lookup of the user that
-- a token names, internal/httpapi/subscription.go.
pub mod Base64
pub mod Decimal
pub mod Utf8
pub mod Token
pub mod Lookup
pub mod Signed
pub mod Pieces
pub mod RoundTrip
pub mod Valid
pub mod Tests
