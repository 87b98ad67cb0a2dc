-- ===== src/Tests.antt =====
-- Runs of the models at concrete inputs.
mod Bus
mod Core
mod Words
mod Counters
mod Devices
mod Geometry
mod Traffic
mod Serial
mod Program
