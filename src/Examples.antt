-- ===== src/Examples.antt =====
-- Small stores, requests and libraries on which the theorems are applied.
pub mod Writing
pub mod Tokens
pub mod Stores
pub mod Clients
pub mod World
pub mod Gates
pub mod Dashboard
pub mod Grants
pub mod Callback
pub mod SecondFactor
pub mod Onboarding
pub mod States
pub mod Administration
pub mod GoogleLogin
pub mod Configuration
pub mod Database
pub mod Serving
pub mod Refusals
pub mod Returns
pub mod KiteLogin
pub mod Sessions
pub mod GoogleState
