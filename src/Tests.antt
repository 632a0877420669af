-- ===== src/Tests.antt =====
-- The theorems at concrete inputs, and runs of the models.
mod CacheTests
mod TiersTests
mod LeaseTests
mod QueueTests
mod CreateTests
mod PublishTests
mod PlannerTests
mod MembershipTests
mod SecurityTests
mod ArtifactTests
mod PlacementTests
mod RegistryTests
mod SchedulerTests
mod GenerationTests
mod QuotaTests
