-- ===== src/Examples.antt =====
-- Runs on small inputs, with libraries that keep their promises.
mod Toy
mod Streams
mod Regions
mod Keyed
mod Files
mod Written
mod Durations
mod Locked
mod UseCases
mod Fields
