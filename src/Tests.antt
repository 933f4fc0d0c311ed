-- ===== src/Tests.antt =====
-- Runs of the modelled code on concrete inputs: tests, and each theorem applied to an input that meets
-- its hypotheses.
mod Wal
mod Database
mod Launcher
mod ThreadPool
mod Locks
mod Multitask
mod Metadata
mod Gateway
mod Utilities
