-- ===== src/Tests.antt =====
-- Runs of the definitions on concrete inputs, and the theorems at inputs that meet their hypotheses.
mod Tables
mod Messages
mod Pdus
mod Callbacks
mod Sends
mod Ports
mod Dials
mod Requests
mod Sessions
mod Sticks
mod Devices
mod Queries
mod Servers
mod Fleet
