-- ===== src/Webhook.antt =====
-- Outbound webhooks: backend/src/utils/webhookUrlGuard.ts and the delivery of
-- backend/src/services/webhookService.ts.
pub mod Address
pub mod Guard
pub mod Delivery
pub mod Retry
pub mod Payload
