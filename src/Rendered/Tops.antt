-- ===== src/Rendered/Tops.antt =====
-- src/rendered_result.rs: which classes are shown, and when showing them panics.
use mathlib.Core.List.{Perm, Pairwise, cons-ne-nil, map}
use mathlib.Core.Option.{none-ne-some, some-ne-none}
use mathlib.Core.List.Perm
use mathlib.Core.List.Pairwise
use hprof_slurp.Prelude.{
  ◌%◌, ◌^◌, ◌≤◌, ℕ, zero, suc, ◌≡◌, refl, sym, ap, ◌∙◌, subst, ◌↔◌, ◌>>=◌, ◌⊎◌, inl, inr, List, [],
  ◌∷◌, ◌++◌, Option, none, some, take, drop, take-append-drop, length, length-take, min, arith,
}
use hprof_slurp.Nom.{Bytes}
use hprof_slurp.Utils.PrettySize.{F64}
use hprof_slurp.Sort.{sort}
use hprof_slurp.Sort.Orders.{Order, then_by, then_le_first, then_le_second}
use hprof_slurp.Sort.Laws.{Le, IsSorted, length-sort, sort-Perm, sort_stable}
use hprof_slurp.Recorder.Measures.{sum}
use hprof_slurp.Rendered.Stats.{ClassAllocationStats, by_allocation, by_largest}
use hprof_slurp.Rendered.Json
use hprof_slurp.Rendered.Json.{DumpInfo}
use hprof_slurp.Rendered.Table.{render_table, unlines}
use hprof_slurp.Rendered.Memory.{
  assembled, analysis, RenderedResult, render_memory_usage, serialize,
}
use hprof_slurp.Rendered.Widths.{render_table_lem}

-- Ahead by a larger number, and by `R` where the numbers are equal.
abbrev pub Ahead : {A : Type 0} → (A → ℕ) → (A → A → Type 0) → A → A → Type 0
Ahead key R a b = (key b ≤ key a) × (key a ≡ key b → R a b)

-- The first `n` of all elements, of which each is ahead of what follows by `R`: the others come
-- behind them.
pub record IsTop {A : Type 0} (R : A → A → Type 0) (n : ℕ) (shown all : List A) : Type 0 where
  pub others : List A
  pub same_elements : Perm (shown ++ others) all
  pub in_order : Pairwise R (shown ++ others)
  pub number : length shown ≡ min n (length all)

take-IsTop :
    {A : Type 0} (R : A → A → Type 0) (n : ℕ) (l all : List A)
    → Perm l all
    → Pairwise R l
    → length l ≡ length all
    → IsTop R n (take n l) all
take-IsTop R n l all p s e = record {
  others = drop n l;
  same_elements = subst (λ x. Perm x all) (sym (take-append-drop n l)) p;
  in_order = subst (Pairwise R) (sym (take-append-drop n l)) s;
  number = length-take n l ∙ ap (min n) e;
}

-- By size, then by the order `p`.
abbrev pub BySize :
    Order ClassAllocationStats → ClassAllocationStats → ClassAllocationStats → Type 0
BySize p = Ahead (λ s. s.allocation_size_bytes) (Le p)

by_allocation-Ahead :
    (p : Order ClassAllocationStats) (a b : ClassAllocationStats)
    → Le (then_by by_allocation p) a b
    → BySize p a b
by_allocation-Ahead p a b h =
    let first = then_le_first by_allocation p a b h in
    (ground (arith, first), λ e. then_le_second by_allocation p a b h (ground (arith, e)))

by_largest-Ahead :
    (p : Order ClassAllocationStats) (a b : ClassAllocationStats)
    → Le (then_by by_largest (then_by by_allocation p)) a b
    → Ahead (λ s. s.largest_allocation_bytes) (BySize p) a b
by_largest-Ahead p a b h =
    let q = then_by by_allocation p in
    let first = then_le_first by_largest q a b h in
    (
      ground (arith, first),
      λ e. by_allocation-Ahead p a b (then_le_second by_largest q a b h (ground (arith, e))),
    )

-- On a memory usage in some order, the JSON result has the sum of the sizes in 64 bits, the number of
-- its classes, the `top` first classes by their sizes, larger ones first and equal ones in the order
-- they had, and the `top` first ones by their largest instances, larger ones first and equal ones by
-- their sizes as before. The memory usage is left with the same classes in it.
pub new_lem :
    (p : Order ClassAllocationStats) (dump : DumpInfo) (usage : List ClassAllocationStats) (top : ℕ)
    → IsSorted p usage
    → ((Json.new dump usage top).0.heap.total_shallow_bytes
        ≡ sum (map (λ s. s.allocation_size_bytes) usage) % 2 ^ 64)
      × ((Json.new dump usage top).0.heap.class_count ≡ length usage)
      × IsTop (BySize p) top (Json.new dump usage top).0.heap.top_allocated_classes usage
      × IsTop
          (Ahead (λ s. s.largest_allocation_bytes) (BySize p))
          top
          (Json.new dump usage top).0.heap.top_largest_instances
          usage
      × Perm (Json.new dump usage top).1 usage
new_lem p dump usage top h =
    let allocated = sort by_allocation usage in
    let s = sort_stable by_allocation p usage h in
    let q = sort-Perm by_allocation usage in
    let r = Perm.trans (sort-Perm by_largest allocated) q in
    let t = sort_stable by_largest (then_by by_allocation p) allocated s in
    (
      refl,
      refl,
      take-IsTop (BySize p) top allocated usage q (Pairwise.imp (by_allocation-Ahead p) s)
          (length-sort by_allocation usage),
      take-IsTop _ top (sort by_largest allocated) usage r (Pairwise.imp (by_largest-Ahead p) t)
          (length-sort by_largest allocated ∙ length-sort by_allocation usage),
      r,
    )

-- What has a length is not empty.
non_empty :
    {A : Type 0} (l : List A) (n : ℕ) → length l ≡ suc n → (x : A) × (m : List A) × (l ≡ x ∷ m)
non_empty [] n e = absurd (omega (arith, e))
non_empty (x ∷ m) n e = (x, m, refl)

render_table-none : (f64 : F64) (top : ℕ) → render_table f64 top [] ≡ none
unfolding render_table
render_table-none f64 zero = refl
render_table-none f64 (suc top) = refl

render_table-some :
    (f64 : F64) (top : ℕ) (rows : List ClassAllocationStats) (n : ℕ)
    → length rows ≡ suc n
    → (t : Bytes) × (render_table f64 (suc top) rows ≡ some t)
render_table-some f64 top rows n e =
    let (x, m, f) = non_empty rows n e in
    let (lines, g, k, w, h) = render_table_lem f64 top x m in
    (unlines lines, ap (render_table f64 (suc top)) f ∙ g)

render_memory_usage-some :
    (f64 : F64) (s : ClassAllocationStats) (rows : List ClassAllocationStats) (top : ℕ)
    → (t : Bytes) × (render_memory_usage f64 (s ∷ rows) (suc top) ≡ some t)
unfolding render_memory_usage
render_memory_usage-some f64 s rows top =
    let l = sort by_allocation (s ∷ rows) in
    let e = length-sort by_allocation (s ∷ rows) in
    let (a, g) = render_table-some f64 top l (length rows) e in
    let (b, h) =
      render_table-some f64 top (sort by_largest l) (length rows) (length-sort by_largest l ∙ e) in
    (analysis f64 (s ∷ rows) (suc top) a b, rw (g, h) refl)

render_memory_usage-none_iff :
    (f64 : F64) (usage : List ClassAllocationStats) (top : ℕ)
    → (render_memory_usage f64 usage top ≡ none) ↔ ((top ≡ 0) ⊎ (usage ≡ []))
unfolding render_memory_usage render_table
render_memory_usage-none_iff f64 [] top = (λ _. inr refl, λ _. rw (render_table-none f64 top) refl)
render_memory_usage-none_iff f64 (s ∷ rows) zero = (λ _. inl refl, λ _. refl)
render_memory_usage-none_iff f64 (s ∷ rows) (suc top) =
    let (t, e) = render_memory_usage-some f64 s rows top in
    (
      λ h. absurd (none-ne-some t (sym h ∙ e)),
      elim [ inl h ↦ absurd (omega (arith, h)) | inr h ↦ absurd (cons-ne-nil s rows h) ],
    )

bind-none_iff :
    (o : Option Bytes) (f : Bytes → Bytes) → ((o >>= λ m. some (f m)) ≡ none) ↔ (o ≡ none)
bind-none_iff none f = (λ h. h, λ h. h)
bind-none_iff (some m) f = (λ h. absurd (some-ne-none (f m) h), λ h. absurd (some-ne-none m h))

-- The text panics exactly when there is nothing to show: at a `top` of zero, or at a memory usage
-- without classes.
pub serialize-none_iff :
    (f64 : F64) (r : RenderedResult) (top : ℕ)
    → (serialize f64 r top ≡ none) ↔ ((top ≡ 0) ⊎ (r.memory_usage ≡ []))
unfolding serialize
serialize-none_iff f64 r top =
    let (p, q) = bind-none_iff (render_memory_usage f64 r.memory_usage top) (assembled r) in
    let (u, v) = render_memory_usage-none_iff f64 r.memory_usage top in (λ h. u (p h), λ h. q (v h))
