-- ===== src/Cluster.antt =====
-- actor-framework-0.15.0a1/examples/master.cpp and client.cpp: a master starts one worker on each
-- host by ssh, the workers send heartbeats, and the master starts again those that do not. An actor
-- is a number.
pub mod Texts
pub mod Connections
pub mod Letters
pub mod Master
pub mod SshWorker
pub mod Client
pub mod Launch
pub mod System
pub mod Numbered
pub mod Invariant
pub mod Starting
pub mod Checking
pub mod Receiving
pub mod Reachable
pub mod Trimming
pub mod Cpu
pub mod Safety
pub mod Schedule
pub mod Detection
pub mod Timer
pub mod HostMap
pub mod ConfFile
pub mod ConfEnd
