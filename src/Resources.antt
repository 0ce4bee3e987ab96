-- ===== src/Resources.antt =====
-- pkg/kapp/resources: what the rest of the program sees of a Kubernetes resource.
pub mod Json
pub mod Resource
pub mod Path
pub mod Matchers
pub mod Unique
pub mod Mods
pub mod Uniqueness
pub mod Tests
