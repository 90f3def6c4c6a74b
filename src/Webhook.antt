-- ===== src/Webhook.antt =====
-- Ingestion of GitHub's webhook deliveries: apps/api/src/modules/webhooks,
-- apps/api/src/controllers/webhooks.controller.ts and the worker's sweeper.
pub mod Allowlist
pub mod Payload
pub mod Router
pub mod Verification
pub mod Ledger
pub mod Sync
pub mod Outcome
pub mod Emit
pub mod Service
pub mod SyncService
pub mod Sweeper
pub mod RateLimit
pub mod Controller
