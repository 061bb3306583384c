-- ===== src/Tests.antt =====
-- Concrete inputs for the theorems: each witness applies one theorem where its hypotheses hold.
mod MemoryOs
mod Fixtures
mod States
mod Stored
mod FilesAndNode
mod Dispatching
mod Waiting
mod Screens
mod Granting
mod Shared
mod Migrating
mod Viewing
mod Editing
mod Scanning
mod Tables
mod Browsing
