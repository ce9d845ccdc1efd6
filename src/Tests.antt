-- ===== src/Tests.antt =====
-- The theorems at concrete inputs, and runs of the model on inputs that can be followed in the
-- source.
mod Flash
mod Headers
mod Fetch
mod Bodies
mod Boot
mod Uart
mod Drivers
mod Ethernet
mod Platform
mod Connect
mod Options
mod Tls
mod Bytes
mod Client
