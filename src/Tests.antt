-- ===== src/Tests.antt =====
-- Each property at a concrete input, and runs of the definitions.
mod Hashing
mod Targets
mod Launches
mod Queues
mod Submission
mod Pools
mod Slots
mod Device
mod Runner
mod Net
mod Templates
