-- ===== src/Report/Names.antt =====
-- The names of classes, as `get_class_name_string` of src/result_recorder.rs writes them.
use mathlib.Core.List.{map}
use hprof_slurp.Prelude.{
  ℕ, ◌-◌, Bool, true, false, not, List, [], ◌∷◌, ◌++◌, Option, none, some, ◌==◌, ◌&&◌, leb,
  if◌then◌else◌, length, take, drop, get_elem?,
}
use hprof_slurp.Nom.{Bytes}
use hprof_slurp.Text.{text, is_continuation}
use hprof_slurp.Text.Digits.{hex}
use hprof_slurp.Parser.GcRecord.{
  FieldType, object, bool, char, float, double, byte, short, int, long,
}
use hprof_slurp.Recorder.State.{ResultRecorder}
use hprof_slurp.Recorder.Results.{find_class_name}
use hprof_slurp.Recorder.InstanceSize.{insert_id}

-- `replace('/', ".")`
abbrev pub with_dots : Bytes → Bytes
with_dots = map λ b. if b == 47 then 46 else b

-- A name, and the missing class ids after it was looked up.
abbrev pub named : ℕ → List ℕ → Option Bytes → Bytes × List ℕ
named class_id ids (some class_name) = (with_dots class_name, ids)
named class_id ids none =
    (text "<unknown class 0x" ++ (hex class_id ++ text ">"), insert_id class_id ids)

unfoldable pub get_class_name_string : ResultRecorder → ℕ → List ℕ → Bytes × List ℕ
get_class_name_string s class_id ids = named class_id ids (find_class_name s class_id)

-- The name of a type in `{:?}`, in lower case.
abbrev pub type_name : FieldType → Bytes
type_name object = text "object"
type_name bool = text "bool"
type_name char = text "char"
type_name float = text "float"
type_name double = text "double"
type_name byte = text "byte"
type_name short = text "short"
type_name int = text "int"
type_name long = text "long"

abbrev pub starts_with : Bytes → Bytes → Bool
starts_with [] s = true
starts_with (c ∷ cs) [] = false
starts_with (c ∷ cs) (b ∷ bs) = c == b && starts_with cs bs

-- A text can be cut at its end and in front of what is no continuation byte.
abbrev pub is_char_boundary : Bytes → ℕ → Bool
is_char_boundary s i = elim (get_elem? s i) [
  | none ↦ i == length s
  | some b ↦ not (is_continuation b)
]

-- `&s[start..end]`; `none` is a panic.
abbrev pub slice : Bytes → ℕ → ℕ → Option Bytes
slice s start end =
    if leb start end && (is_char_boundary s start && is_char_boundary s end)
    then some (drop start (take end s))
    else none

-- Without `[[L` or `[L`, and without the semicolon.
unfoldable pub cleaned_class_name : Bytes → Option Bytes
cleaned_class_name raw_class_name =
    if starts_with (text "[[L") raw_class_name
    then slice raw_class_name 3 (length raw_class_name - 1)
    else if starts_with (text "[L") raw_class_name
    then slice raw_class_name 2 (length raw_class_name - 1)
    else some raw_class_name
