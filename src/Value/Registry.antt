-- ===== src/Value/Registry.antt =====
-- The descriptor registry of native/src/value.cpp.
use Prim.Native.Nat.{bit_and, bit_or}
use wotex_matter.Base.{
  ℕ, Bool, ◌&&◌, ◌||◌, List, [], ◌∷◌, Option, none, some, ◌==◌, leb, ◌%◌, if◌then◌else◌,
}
use wotex_matter.Value.Types.{
  MemberKind, attribute, command, event, Operation, read, write, invoke, subscribe, Schema,
  Descriptor, kind_code,
}

abbrev pub k_read : ℕ
k_read = 1

abbrev pub k_write : ℕ
k_write = 2

abbrev pub k_invoke : ℕ
k_invoke = 4

abbrev pub k_subscribe : ℕ
k_subscribe = 8

abbrev entry : MemberKind → ℕ → ℕ → Schema → ℕ → Descriptor
entry k c m s o = record { kind = k; cluster = c; member = m; schema = s; operations = o }

unfoldable pub descriptors : List Descriptor
descriptors =
    entry attribute 0x0201 0x0000 Schema.nullable_i16 (bit_or k_read k_subscribe)
    ∷ entry attribute 0x0201 0x0011 Schema.i16 (bit_or k_read k_write)
    ∷ entry attribute 0x0201 0x0012 Schema.i16 (bit_or k_read k_write)
    ∷ entry attribute 0x0201 0x001C Schema.u8 (bit_or k_read k_write)
    ∷ entry attribute 0x0006 0x0000 Schema.boolean (bit_or k_read k_subscribe)
    ∷ entry command 0x0006 0x0000 Schema.empty_structure k_invoke
    ∷ entry command 0x0006 0x0001 Schema.empty_structure k_invoke
    ∷ entry command 0x0006 0x0002 Schema.empty_structure k_invoke
    ∷ entry attribute 0x001D 0x0000 Schema.device_type_list k_read
    ∷ entry attribute 0x001D 0x0001 Schema.cluster_list k_read
    ∷ entry attribute 0x001D 0x0002 Schema.cluster_list k_read
    ∷ entry attribute 0x001D 0x0003 Schema.parts_list k_read
    ∷ entry attribute 0x0039 0x0011 Schema.boolean (bit_or k_read k_subscribe)
    ∷ entry event 0x0039 0x0003 Schema.reachable_event (bit_or k_read k_subscribe)
    ∷ entry attribute 0x0402 0x0000 Schema.nullable_i16 (bit_or k_read k_subscribe)
    ∷ entry attribute 0x001F 0x0000 Schema.access_control_list (bit_or k_read k_write)
    ∷ entry attribute 0x003C 0x0000 Schema.window_status k_read
    ∷ entry attribute 0x003C 0x0001 Schema.nullable_fabric_index k_read
    ∷ entry attribute 0x003C 0x0002 Schema.nullable_vendor_id k_read
    ∷ []

unfoldable pub operation_flag : Operation → ℕ
operation_flag read = k_read
operation_flag write = k_write
operation_flag invoke = k_invoke
operation_flag subscribe = k_subscribe

unfoldable pub lookup_in : List Descriptor → MemberKind → ℕ → ℕ → Option Descriptor
lookup_in [] kind cluster member = none
lookup_in (d ∷ ds) kind cluster member =
    let rest = lookup_in ds kind cluster member in
    if kind_code d.kind == kind_code kind && d.cluster == cluster && d.member == member
    then some d
    else rest

unfoldable pub lookup_descriptor : MemberKind → ℕ → ℕ → Option Descriptor
unfolding lookup_in descriptors
lookup_descriptor kind cluster member = lookup_in descriptors kind cluster member

-- `(descriptor->operations & operation_flag(operation)) == 0U`.
unfoldable pub lacks_operation : Descriptor → Operation → Bool
unfolding operation_flag
lacks_operation d operation = bit_and d.operations (operation_flag operation) == 0

unfoldable pub valid_cluster : ℕ → Bool
valid_cluster v =
    leb v 0x7FFF
    || (leb 0x0001FC00 v && leb v 0xFFF4FFFE && leb 0xFC00 (v % 65536) && leb (v % 65536) 0xFFFE)
