-- ===== src/Tests.antt =====
-- Runs of the program on concrete inputs, one for each theorem that has hypotheses.
pub mod Data
pub mod Revocation
pub mod Keys
pub mod Auth
pub mod Deps
pub mod Services
pub mod App
pub mod Health
pub mod Build
pub mod History
pub mod Tasks
pub mod Tokens
pub mod Slots
pub mod PreStart
pub mod Package
