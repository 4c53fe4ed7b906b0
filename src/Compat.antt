-- ===== src/Compat.antt =====
-- nxpk/src/commands/compat.rs: AppImages, run as they are or made into bundles.
pub mod Squashfs
pub mod Programs
pub mod Walk
pub mod Arguments
pub mod Refused
pub mod Convert
