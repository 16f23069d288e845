-- ===== src/Retry.antt =====
-- shared/contracts/errors.ts, shared/n8n/plugTransientRetry.ts, shared/n8n/plugTransportExecutor.ts
-- and shared/n8n/plugCommandIdRotation.ts: which failures are tried again, when, and how often.
pub mod Policy
pub mod Executor
