-- ===== src/MockClient.antt =====
-- invofi/apps/sdk/src/mock.ts: the in-memory client. A method is a function of the state, which
-- comes back after a throw too. The methods stand in the children: Registry, Financing, Repayment,
-- Tokens and Testing.
mod Store
pub mod Registry
pub mod Financing
pub mod Repayment
pub mod Fixtures
pub mod Tokens
pub mod Testing
pub mod Requests
pub mod Atomic
pub mod Effects
pub mod Creation
pub mod Acceptance
pub mod Invariant
pub mod Preserved
pub mod Sessions
pub mod Balances
pub mod Transfers
pub mod Repayments
pub mod Refusals
pub mod Failures
mod Samples
mod EffectTests
mod Tests
pub use Store.*
