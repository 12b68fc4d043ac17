-- ===== src/Parser.antt =====
-- pkg/job/parser: cron expressions, parsed to bit sets and descriptors, and the schedules that they
-- stand for. `Types` holds the data, `Bits` and `Range` one field, `Fields` the fields of an
-- expression, `Parse` and `Descriptor` whole expressions, `Delay` the two simple schedules.
pub mod Types
pub mod Bits
pub mod Range
pub mod Fields
pub mod Delay
pub mod Descriptor
pub mod Parse
pub mod Calendar
pub mod Next
