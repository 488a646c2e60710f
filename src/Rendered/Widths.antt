-- ===== src/Rendered/Widths.antt =====
-- The lines of a table of src/rendered_result.rs are equally wide.
use mathlib.Core.List.{map}
use hprof_slurp.Prelude.{
  ℕ, ◌+◌, ◌-◌, ◌≤◌, ◌≡◌, refl, ap, ◌∙◌, List, [], ◌∷◌, ◌++◌, some, max, take, suc, arith, All, min,
  length, length-append, length-take,
}
use hprof_slurp.Nom.{Bytes}
use hprof_slurp.Text.{char_count}
use hprof_slurp.Text.Digits.{decimal}
use hprof_slurp.Text.Padding.{repeat, char_count-append, char_count-repeat}
use hprof_slurp.Utils.PrettySize.{F64}
use hprof_slurp.Rendered.Stats.{ClassAllocationStats}
use hprof_slurp.Rendered.Table.{
  Row, column_padding, maximum?, padding_for_header, format_row, render_table_vertical_line,
  render_row, lines_between, table_of, unlines, render_table, on_right, on_left, header_line,
  total_size_label, instance_count_label, largest_instance_label, class_name_label,
}

length-map : {A B : Type 0} (f : A → B) (xs : List A) → length (map f xs) ≡ length xs
length-map f [] = refl
length-map f (x ∷ xs) = ap suc (length-map f xs)

-- The list has a largest number, and it is largest.
maximum?_lem :
    (n : ℕ) (ns : List ℕ) → (m : ℕ) × (maximum? (n ∷ ns) ≡ some m) × All (λ k. k ≤ m) (n ∷ ns)
maximum?_lem n [] = (n, refl, (omega arith, tt))
maximum?_lem n (k ∷ ns) =
    let (m, e, below) = maximum?_lem k ns in
    (max n m, rw e refl, (omega arith, weaken (k ∷ ns) m (max n m) (omega arith) below))
  where
    weaken : (l : List ℕ) (a b : ℕ) → a ≤ b → All (λ i. i ≤ a) l → All (λ i. i ≤ b) l
    weaken [] a b h p = tt
    weaken (x ∷ xs) a b h (p, ps) = (omega arith, weaken xs a b h ps)

char_count-column_padding : (s : Bytes) (w : ℕ) → char_count (column_padding s w) ≡ w - char_count s
char_count-column_padding s w = char_count-repeat 32 (w - char_count s) refl

padding_for_header_lem :
    (r : Row) (rows : List Row) (len : Row → ℕ) (label : Bytes)
    → (p : Bytes) × (padding_for_header (r ∷ rows) len label ≡ some p)
      × All (λ x. len x ≤ char_count label + char_count p) (r ∷ rows)
padding_for_header_lem r rows len label =
    let (m, e, below) = maximum?_lem (len r) (map len rows) in
    let w = char_count-column_padding label m in
    (
      column_padding label m,
      rw e refl,
      from_map (r ∷ rows) m (column_padding label m) (omega (arith, w)) below,
    )
  where
    from_map :
        (l : List Row) (m : ℕ) (p : Bytes)
        → m ≤ char_count label + char_count p
        → All (λ k. k ≤ m) (map len l)
        → All (λ x. len x ≤ char_count label + char_count p) l
    from_map [] m p h q = tt
    from_map (x ∷ xs) m p h (q, qs) = (omega arith, from_map xs m p h qs)

module _ (w1 w2 w3 w4 : ℕ) where
  Fits : Row → Type 0
  Fits r =
      (char_count r.allocation_size ≤ w1)
      × ((char_count (decimal r.count) ≤ w2)
          × ((char_count r.largest_allocation_size ≤ w3) × (char_count r.class_name ≤ w4)))

  width : ℕ
  width = w1 + w2 + w3 + w4 + 13

  char_count-render_row : (r : Row) → Fits r → char_count (render_row w1 w2 w3 w4 r) ≡ width
  unfolding Fits width
  char_count-render_row r (h1, (h2, (h3, h4))) =
      simp (char_count-append, char_count-column_padding) (omega arith)

  char_count-rows :
      (rows : List Row)
      → All Fits rows
      → All (λ l. char_count l ≡ width) (map (render_row w1 w2 w3 w4) rows)
  char_count-rows [] hs = tt
  char_count-rows (r ∷ rows) (h, hs) = (char_count-render_row r h, char_count-rows rows hs)

char_count-vertical_line :
    (a b c d : Bytes)
    → char_count (render_table_vertical_line a b c d)
      ≡ char_count a + char_count b + char_count c + char_count d + 5
char_count-vertical_line a b c d =
    let hyphens : (s : Bytes) → char_count (repeat 45 (char_count s)) ≡ char_count s =
      λ s. char_count-repeat 45 (char_count s) refl in
    simp (char_count-append, hyphens) (omega arith)

char_count-header_line :
    (a b c d : Bytes)
    → char_count (header_line a b c d)
      ≡ char_count a + char_count b + char_count c + char_count d + 5
char_count-header_line a b c d = simp char_count-append (omega arith)

char_count-on_right : (p l : Bytes) → char_count (on_right p l) ≡ char_count l + char_count p + 2
char_count-on_right p l = simp char_count-append (omega arith)

char_count-on_left : (p l : Bytes) → char_count (on_left p l) ≡ char_count l + char_count p + 2
char_count-on_left p l = simp char_count-append (omega arith)

All-append : {A : Type 0} (P : A → Type 0) (xs ys : List A) → All P xs → All P ys → All P (xs ++ ys)
All-append P [] ys hs ks = ks
All-append P (x ∷ xs) ys (h, hs) ks = (h, All-append P xs ys hs ks)

All-and :
    {A : Type 0} (P Q : A → Type 0) (xs : List A) → All P xs → All Q xs → All (λ x. P x × Q x) xs
All-and P Q [] hs ks = tt
All-and P Q (x ∷ xs) (h, hs) (k, ks) = ((h, k), All-and P Q xs hs ks)

module _ (p1 p2 p3 p4 : Bytes) where
  abbrev l1 : ℕ
  l1 = char_count total_size_label + char_count p1

  abbrev l2 : ℕ
  l2 = char_count instance_count_label + char_count p2

  abbrev l3 : ℕ
  l3 = char_count largest_instance_label + char_count p3

  abbrev l4 : ℕ
  l4 = char_count class_name_label + char_count p4

  lines_between-widths :
      (rows : List Row)
      → All (Fits l1 l2 l3 l4) rows
      → All (λ l. char_count l ≡ width l1 l2 l3 l4) (lines_between rows p1 p2 p3 p4)
  unfolding width
  lines_between-widths rows hs =
      let h1 = on_right p1 total_size_label in
      let h2 = on_right p2 instance_count_label in
      let h3 = on_right p3 largest_instance_label in
      let h4 = on_left p4 class_name_label in
      let e1 = char_count-on_right p1 total_size_label in
      let e2 = char_count-on_right p2 instance_count_label in
      let e3 = char_count-on_right p3 largest_instance_label in
      let e4 = char_count-on_left p4 class_name_label in
      let line : char_count (render_table_vertical_line h1 h2 h3 h4) ≡ width l1 l2 l3 l4 =
        omega (arith, char_count-vertical_line h1 h2 h3 h4, e1, e2, e3, e4) in
      let header : char_count (header_line h1 h2 h3 h4) ≡ width l1 l2 l3 l4 =
        omega (arith, char_count-header_line h1 h2 h3 h4, e1, e2, e3, e4) in
      (
        line,
        (
          header,
          (
            line,
            All-append (λ l. char_count l ≡ width l1 l2 l3 l4) (map (render_row l1 l2 l3 l4) rows) _
                (char_count-rows l1 l2 l3 l4 rows hs) (line, tt),
          ),
        ),
      )

length-lines_between :
    (rows : List Row) (p1 p2 p3 p4 : Bytes)
    → length (lines_between rows p1 p2 p3 p4) ≡ length rows + 4
length-lines_between rows p1 p2 p3 p4 = simp (length-append, length-map) (omega arith)

-- A table of at least one row: four lines more than rows, each as wide as the others.
table_of_lem :
    (r : Row) (rows : List Row)
    → (lines : List Bytes) × (table_of (r ∷ rows) ≡ some lines)
      × (length lines ≡ length (r ∷ rows) + 4)
      × (w : ℕ) × All (λ l. char_count l ≡ w) lines
unfolding Fits
table_of_lem r rows =
    let rs = r ∷ rows in
    let (p1, e1, f1) =
      padding_for_header_lem r rows (λ r. char_count r.allocation_size) total_size_label in
    let (p2, e2, f2) =
      padding_for_header_lem r rows (λ r. char_count (decimal r.count)) instance_count_label in
    let (p3, e3, f3) =
      padding_for_header_lem r rows (λ r. char_count r.largest_allocation_size)
        largest_instance_label in
    let (p4, e4, f4) =
      padding_for_header_lem r rows (λ r. char_count r.class_name) class_name_label in
    let fits = All-and _ _ rs f1 (All-and _ _ rs f2 (All-and _ _ rs f3 f4)) in
    (
      lines_between rs p1 p2 p3 p4,
      rw (e1, e2, e3, e4) refl,
      length-lines_between rs p1 p2 p3 p4,
      width (l1 p1 p2 p3 p4) (l2 p1 p2 p3 p4) (l3 p1 p2 p3 p4) (l4 p1 p2 p3 p4),
      lines_between-widths p1 p2 p3 p4 rs fits,
    )

-- A table that shows at least one of at least one class is not refused. It has a line for each
-- class it shows and four more, and all of them have the same number of characters.
pub render_table_lem :
    (f64 : F64) (top : ℕ) (s : ClassAllocationStats) (rows : List ClassAllocationStats)
    → (lines : List Bytes) × (render_table f64 (suc top) (s ∷ rows) ≡ some (unlines lines))
      × (length lines ≡ min (suc top) (length (s ∷ rows)) + 4)
      × (w : ℕ) × All (λ l. char_count l ≡ w) lines
unfolding render_table
render_table_lem f64 top s rows =
    let (lines, e, n, w, h) =
      table_of_lem (format_row f64 s) (map (format_row f64) (take top rows)) in
    (lines, rw e refl, n ∙ simp length-map (omega (arith, length-take top rows)), w, h)
