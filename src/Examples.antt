-- ===== src/Examples.antt =====
-- Runs of the model on concrete data, and applications of the theorems to them.
mod Protocol
mod Processor
mod Balancer
mod Pool
mod Session
mod Reconnect
mod Encryption
mod Security
mod Devices
mod Pairing
mod KeyStore
