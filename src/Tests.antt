-- ===== src/Tests.antt =====
-- Runs of the code on concrete inputs, and the theorems at concrete inputs.
mod Walks
mod Scalars
mod Structs
mod Links
mod Order
mod MapForm
mod Packages
mod Peeker
mod Reflect
mod Embed
mod Generate
mod Output
