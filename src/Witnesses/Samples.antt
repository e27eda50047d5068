-- ===== src/Witnesses/Samples.antt =====
-- Services that keep their laws: they hold their data in lists and functions.
pub mod Formats
pub mod Stores
pub mod Generated
pub mod Tables
pub mod Strict
