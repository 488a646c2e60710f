-- ===== src/Rendered/Table.antt =====
-- `render_table` of src/rendered_result.rs: a text table whose columns fit their widest entry.
use mathlib.Core.List.{map}
use hprof_slurp.Prelude.{ℕ, ◌+◌, ◌-◌, List, [], ◌∷◌, ◌++◌, Option, none, some, ◌>>=◌, max, take}
use hprof_slurp.Nom.{Bytes}
use hprof_slurp.Text.{text, char_count}
use hprof_slurp.Text.Digits.{decimal}
use hprof_slurp.Text.Padding.{repeat}
use hprof_slurp.Utils.PrettySize.{F64, pretty_bytes_size}
use hprof_slurp.Rendered.Stats.{ClassAllocationStats}

-- `rows_formatted` has its columns by their names.
pub record Row : Type 0 where
  pub allocation_size : Bytes
  pub count : ℕ
  pub largest_allocation_size : Bytes
  pub class_name : Bytes

abbrev pub column_padding : Bytes → ℕ → Bytes
column_padding column_name max_item_length = repeat 32 (max_item_length - char_count column_name)

-- `Iterator::max`
abbrev pub maximum? : List ℕ → Option ℕ
maximum? [] = none
maximum? (n ∷ []) = some n
maximum? (n ∷ m ∷ ns) = do k ← maximum? (m ∷ ns); some (max n k)

-- `none` is the panic `Results can't be empty`.
abbrev pub padding_for_header : List Row → (Row → ℕ) → Bytes → Option Bytes
padding_for_header rows field_len header_label = do
  max_elem_size ← maximum? (map field_len rows)
  some (column_padding header_label max_elem_size)

abbrev pub format_row : F64 → ClassAllocationStats → Row
format_row f64 s = record {
  allocation_size = pretty_bytes_size f64 s.allocation_size_bytes;
  count = s.instance_count;
  largest_allocation_size = pretty_bytes_size f64 s.largest_allocation_bytes;
  class_name = s.class_name;
}

-- A line between the table's parts, without its line break.
abbrev pub render_table_vertical_line : Bytes → Bytes → Bytes → Bytes → Bytes
render_table_vertical_line total_size_header instance_count_header largest_instance_header
      class_name_header =
    text "+"
    ++ (repeat 45 (char_count total_size_header)
        ++ (text "+"
            ++ (repeat 45 (char_count instance_count_header)
                ++ (text "+"
                    ++ (repeat 45 (char_count largest_instance_header)
                        ++ (text "+" ++ (repeat 45 (char_count class_name_header) ++ text "+")))))))

abbrev pub render_row : (total_size_len instance_len largest_len class_name_len : ℕ) → Row → Bytes
render_row total_size_len instance_len largest_len class_name_len row =
    text "| "
    ++ (column_padding row.allocation_size total_size_len
        ++ (row.allocation_size
            ++ (text " | "
                ++ (column_padding (decimal row.count) instance_len
                    ++ (decimal row.count
                        ++ (text " | "
                            ++ (column_padding row.largest_allocation_size largest_len
                                ++ (row.largest_allocation_size
                                    ++ (text " | "
                                        ++ (row.class_name
                                            ++ (column_padding row.class_name class_name_len
                                                ++ text " |")))))))))))

abbrev pub total_size_label : Bytes
total_size_label = text "Total size"

abbrev pub instance_count_label : Bytes
instance_count_label = text "Instances"

abbrev pub largest_instance_label : Bytes
largest_instance_label = text "Largest"

abbrev pub class_name_label : Bytes
class_name_label = text "Class name"

-- A header on the right of its padding, and one on the left.
abbrev pub on_right : Bytes → Bytes → Bytes
on_right padding label = text " " ++ (padding ++ (label ++ text " "))

abbrev pub on_left : Bytes → Bytes → Bytes
on_left padding label = text " " ++ (label ++ (padding ++ text " "))

abbrev pub header_line : Bytes → Bytes → Bytes → Bytes → Bytes
header_line total_size_header instance_count_header largest_instance_header class_name_header =
    text "|"
    ++ (total_size_header
        ++ (text "|"
            ++ (instance_count_header
                ++ (text "|"
                    ++ (largest_instance_header
                        ++ (text "|" ++ (class_name_header ++ text "|")))))))

-- The lines, from the paddings of the four headers.
abbrev pub lines_between : List Row → Bytes → Bytes → Bytes → Bytes → List Bytes
lines_between rows total_padding instance_padding largest_padding class_padding =
    let h1 = on_right total_padding total_size_label in
    let h2 = on_right instance_padding instance_count_label in
    let h3 = on_right largest_padding largest_instance_label in
    let h4 = on_left class_padding class_name_label in
    let line = render_table_vertical_line h1 h2 h3 h4 in
    line
    ∷ header_line h1 h2 h3 h4
    ∷ line
    ∷ (map
          (render_row (char_count total_size_label + char_count total_padding)
            (char_count instance_count_label + char_count instance_padding)
            (char_count largest_instance_label + char_count largest_padding)
            (char_count class_name_label + char_count class_padding))
          rows
        ++ line ∷ [])

abbrev pub table_of : List Row → Option (List Bytes)
table_of rows = do
  total_padding ← padding_for_header rows (λ r. char_count r.allocation_size) total_size_label
  instance_padding ←
      padding_for_header rows (λ r. char_count (decimal r.count)) instance_count_label
  largest_padding ←
      padding_for_header rows (λ r. char_count r.largest_allocation_size) largest_instance_label
  class_padding ← padding_for_header rows (λ r. char_count r.class_name) class_name_label
  some (lines_between rows total_padding instance_padding largest_padding class_padding)

-- Each line is followed by a line break.
abbrev pub unlines : List Bytes → Bytes
unlines [] = []
unlines (l ∷ ls) = l ++ (10 ∷ unlines ls)

-- What is written to `analysis`.
unfoldable pub render_table : F64 → ℕ → List ClassAllocationStats → Option Bytes
render_table f64 top rows = do
  lines ← table_of (map (format_row f64) (take top rows))
  some (unlines lines)
