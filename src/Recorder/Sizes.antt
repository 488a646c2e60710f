-- ===== src/Recorder/Sizes.antt =====
-- src/result_recorder.rs: the sizes of fields, objects and arrays, in bytes. `none` is a panic.
use hprof_slurp.Prelude.{ℕ, ◌+◌, ◌-◌, ◌*◌, ◌%◌, ◌^◌, ◌==◌, if◌then◌else◌, Option, none, some, ◌>>=◌}
use hprof_slurp.Parser.GcRecord.{
  FieldType, object, bool, char, float, double, byte, short, int, long,
}

-- `OBJECT_ALIGN`
abbrev pub object_align : ℕ
object_align = 8

-- The standard library's `next_multiple_of`.
abbrev pub next_multiple_of : ℕ → ℕ → ℕ
next_multiple_of n d = if n % d == 0 then n else n + (d - n % d)

abbrev pub field_size : FieldType → ℕ → ℕ
field_size object id_size = id_size
field_size byte id_size = 1
field_size bool id_size = 1
field_size char id_size = 2
field_size short id_size = 2
field_size float id_size = 4
field_size int id_size = 4
field_size double id_size = 8
field_size long id_size = 8

abbrev pub primitive_byte_size : FieldType → Option ℕ
primitive_byte_size byte = some 1
primitive_byte_size bool = some 1
primitive_byte_size char = some 2
primitive_byte_size short = some 2
primitive_byte_size float = some 4
primitive_byte_size int = some 4
primitive_byte_size double = some 8
primitive_byte_size long = some 8
primitive_byte_size object = none

abbrev pub object_header_size : ℕ → Option ℕ
object_header_size id_size = if id_size == 4 then some 8 else if id_size == 8 then some 16 else none

abbrev pub array_header_size : ℕ → Option ℕ
array_header_size id_size = if id_size == 4 then some 12 else if id_size == 8 then some 16 else none

-- The elements' bytes are multiplied and added in 64 bits, and so is the padding.
abbrev pub primitive_array_size : ℕ → FieldType → ℕ → Option ℕ
primitive_array_size id_size field_type number_of_elements = do
  header_size ← array_header_size id_size
  byte_size ← primitive_byte_size field_type
  some (next_multiple_of ((header_size + byte_size * number_of_elements) % 2 ^ 64) object_align)

abbrev pub object_array_size : ℕ → ℕ → Option ℕ
object_array_size id_size number_of_elements = do
  header_size ← array_header_size id_size
  some (next_multiple_of ((header_size + id_size * number_of_elements) % 2 ^ 64) object_align)
