-- ===== src/Examples/UnitTests.antt =====
-- The unit tests of the repository's modules, and some of its integration tests, as statements about
-- the model.
mod Values
mod Guards
mod Json
mod Integration
