-- ===== src/Tests.antt =====
-- Runs of the theorems on concrete inputs.
mod Fixtures
mod Bundles
mod Packs
mod Places
mod Signs
mod Daemon
mod Stores
mod Commands
mod Compat
mod Overlays
mod Permissions
mod Trusts
mod Toml
mod Inspects
mod Whole
