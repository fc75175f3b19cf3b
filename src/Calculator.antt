-- ===== src/Calculator.antt =====
-- backend/internal/calculator: the tiers of the four DORA metrics, the detection of gaming, and the
-- parts of the lead time.
pub mod Classification
pub mod Median
pub mod Digits
pub mod Gaming
pub mod LeadTime
