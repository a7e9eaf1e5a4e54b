-- ===== src/Value.antt =====
-- native/include/wotex_matter/value.hpp and native/src/value.cpp: the finite registry of members,
-- and the two gates on values, `convert_value` (out of native values) and `validate_element`.
pub mod Types
pub mod Registry
pub mod AccessControl
pub mod Convert
pub mod Validate
pub mod Agreement
pub mod EntryFields
pub mod FabricField
