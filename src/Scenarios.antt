-- ===== src/Scenarios.antt =====
-- Concrete runs of the models, as tests, and the theorems at concrete inputs.
mod Backends
mod Routes
mod Requests
mod Guards
mod Alerts
mod Sessions
mod Buckets
mod Access
mod Accounts
mod Settings
mod Tables
mod Masking
