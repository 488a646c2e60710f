-- ===== src/Diff/Compute.antt =====
-- src/diff.rs: the totals of each class name, and the entries of a diff.
use mathlib.Core.Bool.{Bool-discrete}
use mathlib.Core.List.{map, filter}
use hprof_slurp.Prelude.{
  ℕ, ◌+◌, ◌-◌, ◌%◌, ◌^◌, ◌==◌, ◌≡◌, refl, Bool, true, not, ◌||◌, List, [], ◌∷◌, ◌++◌, Option, none,
  some, ℤ, pos, negsuc, signed, arith, ==_iff,
}
use mathlib.Core.Path.{ap₂}
use hprof_slurp.Nom.{Bytes}
use hprof_slurp.Parser.LazyMany.{bytes_eq}
use hprof_slurp.Recorder.AHashMap.{Key, AHashMap, get, upsert}
use hprof_slurp.Rendered.Stats.{ClassAllocationStats}
use hprof_slurp.Sort.{sort, dedup}
use hprof_slurp.Sort.Orders.{Order, lexicographic, by_key, reversed, integers}

-- The difference of two 64-bit words, as an i64.
abbrev pub wrapping_delta : (to from : ℕ) → ℤ
wrapping_delta to from = signed 64 ((to + (2 ^ 64 - from)) % 2 ^ 64)

pub record DiffEntry : Type 0 where
  pub class_name : Bytes
  pub instances_from : ℕ
  pub instances_to : ℕ
  pub bytes_from : ℕ
  pub bytes_to : ℕ

abbrev pub delta_bytes : DiffEntry → ℤ
delta_bytes e = wrapping_delta e.bytes_to e.bytes_from

abbrev pub delta_instances : DiffEntry → ℤ
delta_instances e = wrapping_delta e.instances_to e.instances_from

pub bytes_eq_refl : (s : Bytes) → bytes_eq s s ≡ true
bytes_eq_refl [] = refl
bytes_eq_refl (x ∷ xs) = ground (arith, bytes_eq_refl xs)

pub bytes_eq_sound : (s t : Bytes) → bytes_eq s t ≡ true → s ≡ t
bytes_eq_sound [] [] h = refl
bytes_eq_sound [] (y ∷ ys) h = absurd (ground arith)
bytes_eq_sound (x ∷ xs) [] h = absurd (ground arith)
bytes_eq_sound (x ∷ xs) (y ∷ ys) h =
    ap₂ ◌∷◌ ((==_iff x y).0 (ground arith)) (bytes_eq_sound xs ys (ground arith))

abbrev pub string : Key Bytes
string = record { same = bytes_eq; same-refl = bytes_eq_refl; same_sound = bytes_eq_sound }

-- `or_default` and `unwrap_or_default` on instances and bytes.
abbrev pub or_default : Option (ℕ × ℕ) → ℕ × ℕ
or_default none = (0, 0)
or_default (some t) = t

abbrev pub add_stats : ClassAllocationStats → Option (ℕ × ℕ) → ℕ × ℕ
add_stats s old =
    let (instances, bytes) = or_default old in
    ((instances + s.instance_count) % 2 ^ 64, (bytes + s.allocation_size_bytes) % 2 ^ 64)

-- The loop, from the totals so far.
abbrev pub add_totals : List ClassAllocationStats → AHashMap Bytes (ℕ × ℕ) → AHashMap Bytes (ℕ × ℕ)
add_totals [] totals = totals
add_totals (s ∷ stats) totals = add_totals stats (upsert string s.class_name (add_stats s) totals)

abbrev pub totals_by_class_name : List ClassAllocationStats → AHashMap Bytes (ℕ × ℕ)
totals_by_class_name stats = add_totals stats []

abbrev pub keys : {V : Type 0} → AHashMap Bytes V → List Bytes
keys [] = []
keys ((k, _) ∷ m) = k ∷ keys m

abbrev pub new_entry : Bytes → ℕ × ℕ → ℕ × ℕ → DiffEntry
new_entry class_name (instances_from, bytes_from) (instances_to, bytes_to) = record {
  class_name = class_name;
  instances_from = instances_from;
  instances_to = instances_to;
  bytes_from = bytes_from;
  bytes_to = bytes_to;
}

abbrev pub is_nonzero : ℤ → Bool
is_nonzero (pos n) = not (n == 0)
is_nonzero (negsuc _) = true

abbrev pub is_changed : DiffEntry → Bool
is_changed e = is_nonzero (delta_bytes e) || is_nonzero (delta_instances e)

abbrev pub by_growth : Order DiffEntry
by_growth = by_key delta_bytes (reversed integers)

abbrev pub class_names : (from to : AHashMap Bytes (ℕ × ℕ)) → List Bytes
class_names from to = dedup bytes_eq (sort lexicographic (keys from ++ keys to))

-- Where the entries' totals come from.
abbrev pub entry_in : (from to : AHashMap Bytes (ℕ × ℕ)) → Bytes → DiffEntry
entry_in from to class_name =
    new_entry class_name (or_default (get string class_name from))
      (or_default (get string class_name to))

unfoldable pub compute : (from to : List ClassAllocationStats) → List DiffEntry
compute from to =
    let from_by_name = totals_by_class_name from in
    let to_by_name = totals_by_class_name to in
    sort by_growth (
      filter (λ e. Bool-discrete (is_changed e) true)
        (map (entry_in from_by_name to_by_name) (class_names from_by_name to_by_name)))
