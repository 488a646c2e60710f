-- ===== src/Diff/Render.antt =====
-- `render` of src/diff.rs.
use hprof_slurp.Prelude.{ℕ, List, [], ◌∷◌, ◌++◌, min, length, take}
use hprof_slurp.Nom
use hprof_slurp.Text.{text}
use hprof_slurp.Text.Digits.{signed_decimal, decimal}
use hprof_slurp.Text.Padding.{right_aligned}
use hprof_slurp.Utils.PrettySize.{F64, pretty_bytes_size, pretty_signed_bytes_size}
use hprof_slurp.Rendered.Stats.{ClassAllocationStats, total_shallow_bytes}
use hprof_slurp.Diff.Compute.{DiffEntry, delta_bytes, delta_instances, wrapping_delta}

abbrev pub from_to : Nom.Bytes → Nom.Bytes → Nom.Bytes
from_to from to = from ++ (text " → " ++ to)

-- Four columns, and a label behind them.
abbrev pub columns : (size instances size_from_to instances_from_to label : Nom.Bytes) → Nom.Bytes
columns size instances size_from_to instances_from_to label =
    right_aligned 12 size
    ++ (text " "
        ++ (right_aligned 12 instances
            ++ (text " "
                ++ (right_aligned 23 size_from_to
                    ++ (text " "
                        ++ (right_aligned 21 instances_from_to ++ (text "  " ++ label)))))))

module _ (f64 : F64) where
  abbrev pub render_entry : DiffEntry → Nom.Bytes
  render_entry entry =
      columns (pretty_signed_bytes_size f64 (delta_bytes entry))
        (signed_decimal (delta_instances entry))
        (from_to (pretty_bytes_size f64 entry.bytes_from) (pretty_bytes_size f64 entry.bytes_to))
        (from_to (decimal entry.instances_from) (decimal entry.instances_to)) entry.class_name

  abbrev pub render_entries : List DiffEntry → Nom.Bytes
  render_entries [] = []
  render_entries (entry ∷ entries) = render_entry entry ++ (text "\n" ++ render_entries entries)

  -- The part about single classes.
  abbrev pub render_classes : List DiffEntry → ℕ → Nom.Bytes
  render_classes [] top = text "\nNo per-class differences between the two dumps.\n"
  render_classes (entry ∷ entries) top =
      text "\nTop "
      ++ (decimal (min (length (entry ∷ entries)) top)
          ++ (text " of "
              ++ (decimal (length (entry ∷ entries))
                  ++ (text " class deltas (by shallow size growth):\n\n"
                      ++ (columns (text "Δ size") (text "Δ instances") (text "size (from → to)")
                            (text "instances (from → to)") (text "Class name")
                          ++ (text "\n" ++ render_entries (take top (entry ∷ entries))))))))

  unfoldable pub render :
      (from_label to_label : Nom.Bytes)
      → (from to : List ClassAllocationStats) → (entries : List DiffEntry) → (top : ℕ) → Nom.Bytes
  render from_label to_label from to entries top =
      let total_from = total_shallow_bytes from in
      let total_to = total_shallow_bytes to in
      text "\nHeap diff of raw shallow sizes:\n  from: "
      ++ (from_label
          ++ (text " ("
              ++ (pretty_bytes_size f64 total_from
                  ++ (text ")\n  to:   "
                      ++ (to_label
                          ++ (text " ("
                              ++ (pretty_bytes_size f64 total_to
                                  ++ (text ")\n  net:  "
                                      ++ (pretty_signed_bytes_size f64
                                            (wrapping_delta total_to total_from)
                                          ++ (text "\n" ++ render_classes entries top))))))))))
