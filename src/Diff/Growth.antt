-- ===== src/Diff/Growth.antt =====
-- The order of the entries of src/diff.rs, spelled out.
use hprof_slurp.Prelude.{ℕ, ◌+◌, ◌-◌, ◌%◌, ◌^◌, ◌<◌, ◌≤◌, ◌≡◌, true, signed, arith}
use hprof_slurp.Sort.Orders.{
  Order, by_key, lexicographic, integer_le, then_by, then_le_first, then_le_second,
}
use hprof_slurp.Sort.Texts.{AtMost, lexicographic_le-AtMost}
use hprof_slurp.Sort.Laws.{Le}
use hprof_slurp.Diff.Compute.{DiffEntry, by_growth}

-- How much larger the bytes on the right are, wrapped around in 64 bits, from -2^63 on: the least
-- growth, by which they shrink most, is 0.
abbrev pub growth : DiffEntry → ℕ
growth e = (e.bytes_to + (2 ^ 64 - e.bytes_from) + 2 ^ 63) % 2 ^ 64

-- What has grown more comes first, and of what has grown alike the lesser name.
abbrev pub GrewMore : DiffEntry → DiffEntry → Type 0
GrewMore a b = (growth b ≤ growth a) × (growth a ≡ growth b → AtMost a.class_name b.class_name)

signed-le :
    (x y : ℕ)
    → x < 2 ^ 64
    → y < 2 ^ 64
    → integer_le (signed 64 x) (signed 64 y) ≡ true
    → (x + 2 ^ 63) % 2 ^ 64 ≤ (y + 2 ^ 63) % 2 ^ 64
signed-le x y h k e = ground (arith, e)

le-signed :
    (x y : ℕ)
    → x < 2 ^ 64
    → y < 2 ^ 64
    → (x + 2 ^ 63) % 2 ^ 64 ≤ (y + 2 ^ 63) % 2 ^ 64
    → integer_le (signed 64 x) (signed 64 y) ≡ true
le-signed x y h k l = ground (arith, l)

abbrev pub by_name : Order DiffEntry
by_name = by_key (λ e. e.class_name) lexicographic

-- The pattern of the difference, without its sign.
abbrev pattern : DiffEntry → ℕ
pattern e = (e.bytes_to + (2 ^ 64 - e.bytes_from)) % 2 ^ 64

growth_lem : (e : DiffEntry) → (pattern e + 2 ^ 63) % 2 ^ 64 ≡ growth e
growth_lem e = omega arith

pub by_growth-GrewMore : (a b : DiffEntry) → Le (then_by by_growth by_name) a b → GrewMore a b
by_growth-GrewMore a b h =
    let at_a = growth_lem a in
    let at_b = growth_lem b in
    let first = then_le_first by_growth by_name a b h in
    let less = signed-le (pattern b) (pattern a) (omega arith) (omega arith) first in
    (
      omega (arith, at_a, at_b, less),
      λ e.
          let alike =
            le-signed (pattern a) (pattern b) (omega arith) (omega arith)
              (omega (arith, at_a, at_b, e)) in
          lexicographic_le-AtMost a.class_name b.class_name
            (then_le_second by_growth by_name a b h alike),
    )
