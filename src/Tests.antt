-- ===== src/Tests.antt =====
-- Runs of the model on small inputs, and each theorem at an input that meets its hypotheses.
mod PathTests
mod HandleTests
mod MetricsTests
mod DbTests
mod FsTests
mod ContentTests
mod FlushTests
mod NamesTests
mod FileTests
mod ProcessTests
mod ReplicaTests
mod TypesTests
mod VolumeTests
mod StrandedTests
mod ListingTests
mod RenameTests
mod ClientTests
