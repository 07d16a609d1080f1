-- ===== src/Examples.antt =====
-- Concrete hosts, frames and states, and runs of the operations on them.
mod Hosts
mod Packets
mod Files
mod Sockets
mod Rows
mod Tables
mod Readings
mod Updates
mod Sessions
mod Programs
mod Logs
mod Calls
mod Rounds
