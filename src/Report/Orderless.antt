-- ===== src/Report/Orderless.antt =====
-- The texts of src/result_recorder.rs that list strings or ids do not depend on the order of the hash
-- map or the hash set that these come from.
use mathlib.Core.List.{Perm, map}
use mathlib.Core.List.Perm
use hprof_slurp.Prelude.{ℕ, ◌≡◌, refl, ap, List, [], ◌∷◌, some}
use hprof_slurp.Recorder.AHashMap.{AHashMap}
use hprof_slurp.Recorder.State.{ResultRecorder}
use hprof_slurp.Sort.Orders.{ascending, lexicographic, lexicographic_le_antisymm}
use hprof_slurp.Sort.Laws.{sort-Perm_unique}
use hprof_slurp.Report.Unordered.{leb_antisymm}
use hprof_slurp.Report.Texts.{
  values, strings_of, warning, render_captured_strings, render_duplicated_strings,
  render_missing_class_warning,
}

values_lem : {K V : Type 0} (m : AHashMap K V) → values m ≡ map (λ e. e.1) m
values_lem [] = refl
values_lem ((k, v) ∷ m) = ap (λ l. v ∷ l) (values_lem m)

strings_of-Perm :
    (s s' : ResultRecorder)
    → Perm s.captured.utf8_strings_by_id s'.captured.utf8_strings_by_id
    → strings_of s ≡ strings_of s'
strings_of-Perm s s' p =
    let m = s.captured.utf8_strings_by_id in
    let m' = s'.captured.utf8_strings_by_id in
    sort-Perm_unique lexicographic lexicographic_le_antisymm (values m) (values m')
      (rw (values_lem m, values_lem m') (Perm.map (λ e. e.1) p))

warning-Perm :
    (ids ids' : List ℕ)
    → Perm ids ids'
    → render_missing_class_warning ids ≡ render_missing_class_warning ids'
unfolding render_missing_class_warning
warning-Perm [] [] p = refl
warning-Perm [] (i ∷ ids') p = ap render_missing_class_warning (Perm.nil-eq p)
warning-Perm (i ∷ ids) [] p = ap render_missing_class_warning (Perm.eq-nil p)
warning-Perm (i ∷ ids) (j ∷ ids') p =
    ap (λ l. some (warning l)) (sort-Perm_unique ascending leb_antisymm (i ∷ ids) (j ∷ ids') p)

-- Let two recorders have the same strings by their ids, and let two sets have the same missing class
-- ids, in whatever orders. Then the listed strings, what is said about duplicates, and the warning
-- are the same.
pub texts_orderless :
    (s s' : ResultRecorder) (ids ids' : List ℕ)
    → Perm s.captured.utf8_strings_by_id s'.captured.utf8_strings_by_id
    → Perm ids ids'
    → (render_captured_strings s ≡ render_captured_strings s')
      × (render_duplicated_strings s ≡ render_duplicated_strings s')
      × (render_missing_class_warning ids ≡ render_missing_class_warning ids')
unfolding render_captured_strings render_duplicated_strings
texts_orderless s s' ids ids' p q =
    let e = strings_of-Perm s s' p in (rw e refl, rw e refl, warning-Perm ids ids' q)
