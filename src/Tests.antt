-- ===== src/Tests.antt =====
-- Runs of the definitions on the inputs of the unit tests of src/, and every theorem with
-- hypotheses at a concrete input that meets them.
mod Samples
mod Statsd
mod Buffer
mod Steps
mod Rayon
mod Http
mod Start
mod Grains
mod Pipelines
mod Mailboxes
mod Streams
mod Kernel
mod Events
