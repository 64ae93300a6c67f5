-- ===== src/Capstone.antt =====
-- capstone/cap1_pipeline.py: the stages of the end-to-end pipeline.
pub mod Events
pub mod Latest
pub mod Merge
pub mod Replica
pub mod Quality
pub mod Mart
pub mod Stages
pub mod EndToEnd
