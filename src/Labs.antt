-- ===== src/Labs.antt =====
-- The notebooks' own code: the parts of kafka, iceberg and spark notebooks that compute.
pub mod PoisonPill
pub mod Checkpoints
pub mod Delivery
pub mod ConsumerLag
pub mod Retention
pub mod Backpressure
pub mod UpsertPipeline
pub mod Rebalancing
pub mod Caching
pub mod Salting
pub mod Watermarks
pub mod Topics
pub mod Deletes
pub mod Experiments
pub mod OrphanFiles
pub mod WalGrowth
pub mod Envelope
pub mod SchemaEvolution
