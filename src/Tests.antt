-- ===== src/Tests.antt =====
-- Concrete inputs: a system, heaps and files on which the theorems are applied and the code runs.
mod Release
mod Lines
mod Liberar
mod System
mod Blocks
mod Numbers
mod Readers
mod Runs
mod Startup
mod Returns
mod Session
mod Faults
