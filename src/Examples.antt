-- ===== src/Examples.antt =====
-- The theorems at concrete inputs.
mod Fees
mod Errors
mod Ffi
mod Urls
mod Note
mod Recoverable
mod Spend
mod Keys
mod Signature
mod Protocol
mod Requests
mod Minting
mod Client
mod Session
mod Service
