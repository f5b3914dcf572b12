-- ===== src/Git.antt =====
-- internal/git: the worker that collects exports and archives and commits them in batches.
pub mod ArchivePath
pub mod Queue
pub mod Message
pub mod Export
pub mod Worker
