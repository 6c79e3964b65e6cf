-- ===== src/Edid.antt =====
-- crates/pronk-core/src/edid.rs: the EDID that the manager makes for a cast display, with
-- `ValidatedEdid` of castkms.rs, which checks it.
pub mod Timings
pub mod Modes
pub mod Ratios
pub mod Slices
pub mod Panics
pub mod Blocks
pub mod Extensions
pub mod Lengths
pub mod Layout
pub mod Descriptor
pub mod Request
pub mod Identity
pub mod Build
pub mod Framing
pub mod Fields
pub mod Reading
pub mod Generated
