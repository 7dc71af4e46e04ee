-- ===== src/Scitt.antt =====
-- verify/scitt: the caches of verified artifacts.
pub mod Types
pub mod ReceiptCache
pub mod TokenCache
pub mod KeyStore
pub mod Errors
pub mod Cose
pub mod Receipt
pub mod Signed
pub mod Token
pub mod Headers
pub mod Supplier
pub mod Sample
mod Tests
