-- ===== src/Mlops.antt =====
-- ml/mlops: the promotion of models.
pub mod Promotion
pub mod Registry
pub mod Promote
pub mod Memory
pub mod Tests
