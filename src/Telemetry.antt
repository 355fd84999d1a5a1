-- ===== src/Telemetry.antt =====
-- Package telemetry (internal/telemetry): the batch processors and the delivery state they report to.
pub mod Delivery
pub mod Batch
pub mod Conservation
pub mod Limits
pub mod Stop
