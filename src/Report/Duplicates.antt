-- ===== src/Report/Duplicates.antt =====
-- `render_duplicated_strings` of src/result_recorder.rs.
use mathlib.Core.Bool.{true≢false}
use mathlib.Core.List.{Pairwise, Nodup, mem-cons_self}
use mathlib.Core.List.Perm
use mathlib.Core.Option.{some-ne-none}
use hprof_slurp.Prelude.{
  suc, ◌≤◌, ◌≡◌, ◌↔◌, refl, sym, ap, subst, Bool, true, false, List, [], ◌∷◌, none, some, ◌==◌,
  ==_iff, if◌then◌else◌, length, arith, Bool-cases, inl, inr,
}
use hprof_slurp.Nom.{Bytes}
use hprof_slurp.Parser.LazyMany.{bytes_eq}
use hprof_slurp.Recorder.State.{ResultRecorder}
use hprof_slurp.Sort.{sort, dedup, dedup_from}
use hprof_slurp.Sort.Orders.{lexicographic, lexicographic_le_antisymm}
use hprof_slurp.Sort.Laws.{sort-Perm, sort-IsSorted}
use hprof_slurp.Sort.Distinct.{dedup-Nodup}
use hprof_slurp.Diff.Compute.{bytes_eq_refl, bytes_eq_sound}
use hprof_slurp.Report.Texts.{values, render_duplicated_strings}

-- `dedup` makes a list no longer, and as long only if it leaves it as it is.
length-dedup_from :
    (x : Bytes) (ys : List Bytes) → length (dedup_from bytes_eq x ys) ≤ suc (length ys)
length-dedup_from x [] = omega arith
length-dedup_from x (y ∷ ys) = elim (Bool-cases (bytes_eq x y)) [
  | inl e ↦ rw e (omega (arith, length-dedup_from x ys))
  | inr e ↦ rw e (omega (arith, length-dedup_from y ys))
]

kept_all :
    (x : Bytes) (ys : List Bytes)
    → length (dedup_from bytes_eq x ys) ≡ suc (length ys)
    → dedup_from bytes_eq x ys ≡ x ∷ ys
kept_all x [] h = refl
kept_all x (y ∷ ys) h = elim (Bool-cases (bytes_eq x y)) [
  | inl e ↦
      let g : length (dedup_from bytes_eq x ys) ≡ suc (suc (length ys)) = rw e at h in
      absurd (omega (arith, g, length-dedup_from x ys))
  | inr e ↦
      let g : suc (length (dedup_from bytes_eq y ys)) ≡ suc (suc (length ys)) = rw e at h in
      rw e (ap (λ l. x ∷ l) (kept_all y ys (omega (arith, g))))
]

-- Without repetitions nothing is left out.
dedup_from-distinct :
    (x : Bytes) (ys : List Bytes) → Nodup (x ∷ ys) → dedup_from bytes_eq x ys ≡ x ∷ ys
dedup_from-distinct x [] h = refl
dedup_from-distinct x (y ∷ ys) (Pairwise.cons h k) = elim (Bool-cases (bytes_eq x y)) [
  | inl e ↦ absurd (h y mem-cons_self (bytes_eq_sound x y e))
  | inr e ↦ rw e (ap (λ l. x ∷ l) (dedup_from-distinct y ys k))
]

dedup-length_iff :
    (l : List Bytes) → (length (dedup bytes_eq l) ≡ length l) ↔ (dedup bytes_eq l ≡ l)
dedup-length_iff [] = (λ _. refl, λ _. refl)
dedup-length_iff (x ∷ xs) = (kept_all x xs, ap length)

dedup-distinct : (l : List Bytes) → Nodup l → dedup bytes_eq l ≡ l
dedup-distinct [] h = refl
dedup-distinct (x ∷ xs) h = dedup_from-distinct x xs h

none-if_iff : (b : Bool) (t : Bytes) → ((if b then none else some t) ≡ none) ↔ (b ≡ true)
none-if_iff true t = (λ _. refl, λ _. refl)
none-if_iff false t = (λ h. absurd (some-ne-none t h), λ h. absurd (true≢false (sym h)))

-- Nothing is said about duplicates exactly when all strings are different.
pub render_duplicated_strings-none_iff :
    (s : ResultRecorder)
    → (render_duplicated_strings s ≡ none) ↔ Nodup (values s.captured.utf8_strings_by_id)
unfolding render_duplicated_strings
render_duplicated_strings-none_iff s =
    let l = values s.captured.utf8_strings_by_id in
    let m = sort lexicographic l in
    let (p, q) = Perm.Nodup-iff (sort-Perm lexicographic l) in
    let (u, v) = none-if_iff (length m == length (dedup bytes_eq m)) _ in
    let (i, j) = ==_iff (length m) (length (dedup bytes_eq m)) in
    let (k, n) = dedup-length_iff m in
    let d =
      (dedup-Nodup bytes_eq bytes_eq_sound bytes_eq_refl lexicographic lexicographic_le_antisymm m
        (sort-IsSorted lexicographic l)).1 in
    (λ h. p (subst Nodup (k (sym (i (u h)))) d), λ h. v (j (sym (n (dedup-distinct m (q h))))))
