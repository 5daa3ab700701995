-- ===== src/Tests.antt =====
-- Tests, and the theorems at concrete inputs.
mod Scene
mod Names
mod Uploads
mod Opens
mod Errors
mod Mounts
mod Starts
mod Runs
mod Shares
mod Fleets
mod Files
mod Threads
