-- ===== src/Util.antt =====
-- nc_util.hpp: the string helpers, a module for each family.
pub mod Prefix
pub mod Strip
pub mod Split
pub mod Name
pub mod Files
pub mod Lines
pub mod Format
pub mod Colour
pub mod Level
pub mod Atomic
