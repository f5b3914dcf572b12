-- ===== src/Tests.antt =====
-- Runs of the theorems at concrete inputs.
mod Paths
mod Queue
mod Material
mod Memory
mod Events
mod Push
mod Cluster
mod Deployment
mod Settings
mod Commits
mod Worker
mod ConfigMaps
mod Programs
mod Files
mod Echo
mod Renames
mod Interleavings
mod Controller
