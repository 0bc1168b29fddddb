-- ===== src/Tests.antt =====
-- Runs of the definitions, and each theorem at an input that meets its conditions.
mod OrderSync
mod Control
mod Network
mod Node
mod System
mod Main
mod Printed
mod Arrival
mod Cabin
