-- ===== src/Examples.antt =====
-- Runs at concrete inputs: the data, and the theorems applied to it.
mod Data
mod Server
mod Configs
mod Client
mod Tunnel
mod Validator
mod Registry
mod Streams
mod System
mod Connection
mod Program
mod Ports
mod Metrics
