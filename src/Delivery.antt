-- ===== src/Delivery.antt =====
-- What is sent to others: events for Hyperflow, and messages and calls through Twilio.
pub mod Enqueue
pub mod EventOutbox
pub mod Outbound
pub mod Readiness
