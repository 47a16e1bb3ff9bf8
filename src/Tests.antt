-- ===== src/Tests.antt =====
-- Runs of the library and the witnesses of its theorems, on small tables.
mod Tables
mod Runs
mod Witnesses
mod Whole
mod Commands
mod Framework
