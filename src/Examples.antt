-- ===== src/Examples.antt =====
-- Concrete instances of the interfaces, and runs of the model on concrete inputs.
mod World
mod Quickstart
mod UnitTests
mod Values
mod Guard
mod Serving
mod Calling
mod Interleaving
mod Delegating
mod Handshaking
mod Wires
