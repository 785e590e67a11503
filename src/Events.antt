-- ===== src/Events.antt =====
-- src/ocr_engine/events: the event envelope and the publisher that drains the outbox to Kafka.
pub mod Envelope
pub mod Publisher
