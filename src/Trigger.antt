-- ===== src/Trigger.antt =====
-- The socket event trigger node (packages/n8n-nodes-plug-database/nodes/PlugDatabaseSocketEventTrigger).
pub mod Backpressure
pub mod Reconnect
