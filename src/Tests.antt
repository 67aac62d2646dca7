-- ===== src/Tests.antt =====
-- Runs of the model on concrete inputs, and the theorems at concrete inputs.
mod Fixtures
mod AdmissionRuns
mod MemoryRuns
mod QueueRuns
mod CleanupRuns
mod PollRuns
mod CollectorRuns
mod OwnershipRuns
mod ThroughputRuns
mod ObservationRuns
mod RegistryRuns
mod WorkerRuns
