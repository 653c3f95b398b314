-- ===== src/Mlow/Range.antt =====
-- mlow/rangecoder.go: the range coder. A `uint32` is a number below 2 ^ 32 whose wrap is written
-- out; so is an `int32`, as the word of its bits. Tables are lists of the numbers in them.
pub mod Decoder
pub mod Symbols
pub mod Encoder
pub mod Flush
mod Digits
mod Carry
mod Interval
mod Nested
mod Sync
mod Step
mod Split
mod Symbol
mod Start
mod End
mod Output
mod Finish
mod Codec
mod Search
mod Frequencies
mod Kinds
mod Uniform
mod BitStep
mod IcdfStep
mod Errors
mod Fits
pub mod RoundTrip
mod Bounds
mod Limits
mod Reads
pub mod AnyInput
mod Tests
