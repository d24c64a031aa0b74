-- ===== src/Util.antt =====
-- Package util: helpers on texts.
pub mod StringSet
