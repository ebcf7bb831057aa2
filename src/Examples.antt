-- ===== src/Examples.antt =====
-- Runs of the model on concrete inputs.
pub mod StorageRuns
pub mod RingRuns
pub mod QueryRuns
pub mod AuthRuns
pub mod CacheRuns
pub mod BoardRuns
pub mod StoreRuns
mod MutationRuns
mod DeliveryRuns
pub mod ServerRuns
mod BatchRuns
mod OrderRuns
