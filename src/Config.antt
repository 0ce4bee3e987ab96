-- ===== src/Config.antt =====
-- pkg/kapp/config: the parts of the configuration that order changes.
pub mod Matchers
pub mod Bindings
