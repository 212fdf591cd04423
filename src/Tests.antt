-- ===== src/Tests.antt =====
-- Runs of the modelled code on small inputs, with what the theorems say of them.
mod Setting
mod Buffers
mod Parsing
mod Sessions
mod Packets
mod Frames
mod Assembly
mod Cluster
mod Life
mod Reads
mod Closing
mod Capture
mod Connection
