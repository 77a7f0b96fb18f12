-- ===== src/Tests.antt =====
-- Inputs at which the theorems apply, and runs of the definitions on inputs that can be followed
-- in the source.
mod Setup
mod Cripter
mod Http
mod MachineTime
mod Relay
mod Server
mod Connection
mod LiraCalc
