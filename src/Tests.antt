-- ===== src/Tests.antt =====
-- Concrete runs of the model: each witness applies a theorem to values at which its hypotheses hold.
mod Machine
mod Writing
mod Waiting
mod Receiving
mod Stopping
mod Coordinating
mod Sessions
mod Ftdi
mod Rates
mod Managing
mod Board
mod Selecting
mod Resources
mod Building
mod Cables
mod Sysfs
mod Opening
mod Provision
mod Upload
mod Relaying
mod Commands
mod Durations
mod Whole
