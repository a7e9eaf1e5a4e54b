-- ===== src/Interaction.antt =====
-- native/include/wotex_matter/interaction.hpp and native/src/interaction.cpp.
pub mod Types
pub mod Validity
pub mod Completion
pub mod Admission
