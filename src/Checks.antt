-- ===== src/Checks.antt =====
-- The theorems applied to concrete inputs, and tests of the definitions.
mod Net
mod Layers
mod Frag
mod Hex
mod Reasm
mod Tcp
mod Http
mod TcpHelpers
mod NetConf
mod Appliance
mod IcmpHelpers
