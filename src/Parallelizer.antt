-- ===== src/Parallelizer.antt =====
-- dt-parallelizer/src: how a batch of items is drained from the queue, split over the sinkers, and
-- merged, in each of the parallelizers.
pub mod Merger
pub mod Sinks
pub mod Base
pub mod Snapshot
pub mod Table
pub mod Partition
pub mod Merge
pub mod Foxlake
pub mod Check
pub mod MongoMerger
pub mod Redis
mod Tests
