-- ===== src/Tests.antt =====
-- Tests of the definitions, and the theorems at concrete inputs.
mod Samples
mod Checks
mod Parts
mod Limits
mod Stores
mod Settings
mod Running
mod Startup
mod Decisions
mod Tables
mod Health
mod Gauges
mod Service
