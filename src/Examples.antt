-- ===== src/Examples.antt =====
-- The theorems at concrete inputs, and runs of the definitions.
mod Data
mod Access
mod Audit
mod Projects
mod Repositories
mod Blueprints
mod FileStorage
mod Files
mod Outbox
mod Permits
mod Construction
mod FieldReporting
mod Communication
mod Api
mod AiReview
mod Email
mod Documents
mod Tokens
mod Collections
