-- ===== src/Tests.antt =====
-- A toy scheme, and runs of the modelled code under it.
mod Toy
mod ChainData
mod ChainRuns
mod SyncRuns
mod DkgData
mod DkgRuns
mod MessageRuns
mod ExecutionRuns
mod EpochRuns
mod PoolRuns
mod ProcessRuns
mod CoreRuns
mod DefaultRuns
