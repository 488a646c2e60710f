-- ===== src/Report/Collect.antt =====
-- Collecting over a map of src/result_recorder.rs, when what one element makes does not depend on the
-- missing class ids so far.
use mathlib.Core.List.{Mem, Perm, map, mem-cons, mem-cons_self, mem-cons_of_mem, not-mem-nil}
use mathlib.Core.List.Perm
use mathlib.Core.Logic.Or
use mathlib.Core.Option.{none-ne-some, some-injective}
use mathlib.Core.Path.{ap₂}
use hprof_slurp.Prelude.{ℕ, ◌≡◌, refl, sym, ap, ◌∙◌, subst, List, [], ◌∷◌, Option, none, some}
use hprof_slurp.Report.Usage.{Outcome, done, panicked, loops, and_then, collect}

abbrev pub value_of : {A : Type 0} → Outcome A → Option A
value_of (done a ids) = some a
value_of panicked = none
value_of loops = none

abbrev pub value_or : {A : Type 0} → A → Option A → A
value_or a none = a
value_or a (some b) = b

is_done :
    {A : Type 0} (o : Outcome A) (a : A) → value_of o ≡ some a → (ids : List ℕ) × (o ≡ done a ids)
is_done (done b ids) a h = (ids, ap (λ x. done x ids) (some-injective _ _ h))
is_done panicked a h = absurd (none-ne-some a h)
is_done loops a h = absurd (none-ne-some a h)

-- A step that is done has both of its parts done.
pub and_then-done :
    {A B : Type 0} (o : Outcome A) (k : A → List ℕ → Outcome B) (b : B)
    → value_of (and_then o k) ≡ some b
    → (a : A) × (ids : List ℕ) × (o ≡ done a ids) × (value_of (k a ids) ≡ some b)
and_then-done (done a ids) k b h = (a, ids, refl, h)
and_then-done panicked k b h = absurd (none-ne-some b h)
and_then-done loops k b h = absurd (none-ne-some b h)

module _ {A B : Type 0} (f : A → List ℕ → Outcome B) (other : B) (set : IsSet (Option B))
    (same : (x : A) (ids ids' : List ℕ) → value_of (f x ids) ≡ value_of (f x ids')) where
  -- What an element makes.
  abbrev pub made : A → B
  made x = value_or other (value_of (f x []))

  abbrev IsMade : List A → Type 0
  IsMade l = (x : A) → Mem x l → value_of (f x []) ≡ some (made x)

  made_of : (x : A) (b : B) (ids ids' : List ℕ) → f x ids ≡ done b ids' → value_of (f x []) ≡ some b
  made_of x b ids ids' e = same x [] ids ∙ ap value_of e

  made-value :
      (x : A) (b : B)
      → value_of (f x []) ≡ some b
      → (value_of (f x []) ≡ some (made x)) × (b ≡ made x)
  made-value x b h = let e : b ≡ made x = sym (ap (value_or other) h) in (h ∙ ap some e, e)

  IsMade-cons : (x : A) (l : List A) → value_of (f x []) ≡ some (made x) → IsMade l → IsMade (x ∷ l)
  IsMade-cons x l h k y m =
      Or.elim (set _ _) (mem-cons.0 m)
        (λ e. subst (λ z. value_of (f z []) ≡ some (made z)) (sym e) h) (k y)

  collect-IsMade :
      (l : List A) (ids : List ℕ) (bs : List B)
      → value_of (collect f l ids) ≡ some bs
      → IsMade l × (map made l ≡ bs)
  collect-IsMade [] ids bs h = (λ x m. absurd (not-mem-nil m), some-injective _ _ h)
  collect-IsMade (x ∷ xs) ids bs h =
      let (b, i, e, k) = and_then-done (f x ids) _ bs h in
      let (cs, j, g, n) = and_then-done (collect f xs i) _ bs k in
      let (p, q) = made-value x b (made_of x b ids i e) in
      let (r, s) = collect-IsMade xs i cs (ap value_of g) in
      (IsMade-cons x xs p r, ap₂ ◌∷◌ (sym q) s ∙ some-injective _ _ n)

  IsMade-collect :
      (l : List A) (ids : List ℕ)
      → IsMade l
      → (ids' : List ℕ) × (collect f l ids ≡ done (map made l) ids')
  IsMade-collect [] ids h = (ids, refl)
  IsMade-collect (x ∷ xs) ids h =
      let (i, e) = is_done (f x ids) (made x) (same x ids [] ∙ h x mem-cons_self) in
      let (j, g) = IsMade-collect xs i (λ y m. h y (mem-cons_of_mem x m)) in (j, rw (e, g) refl)

  -- Collecting over the same elements in another order makes the same in another order.
  pub collect-Perm :
      (l m : List A) (ids ids' : List ℕ) (bs : List B)
      → Perm l m
      → collect f l ids ≡ done bs ids'
      → (cs : List B) × Perm bs cs × ((i : List ℕ) → (j : List ℕ) × (collect f m i ≡ done cs j))
  collect-Perm l m ids ids' bs p h =
      let (k, e) = collect-IsMade l ids bs (ap value_of h) in
      (
        map made m,
        subst (λ x. Perm x (map made m)) e (Perm.map made p),
        λ i. IsMade-collect m i (λ x n. k x ((Perm.mem_iff p).1 n)),
      )
