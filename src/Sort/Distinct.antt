-- ===== src/Sort/Distinct.antt =====
-- What `dedup` leaves of a sorted list: its elements, each of them once.
use mathlib.Core.Logic.Or
use mathlib.Core.List.{
  Mem, Mem-prop, Pairwise, Pairwise-singleton, Nodup, mem-cons, mem-cons_self, mem-cons_of_mem,
}
use mathlib.Core.List.Pairwise
use hprof_slurp.Prelude.{
  ◌≡◌, ◌≢◌, ◌↔◌, sym, subst, Bool, true, List, [], ◌∷◌, Bool-cases, inl, inr, arith, ◌∙◌,
}
use hprof_slurp.Sort.{dedup, dedup_from}
use hprof_slurp.Sort.Orders.{Order}
use hprof_slurp.Sort.Laws.{IsSorted, Le, below_all, Le_refl}

mem_under :
    {A : Type 0} (x : A) (l m : List A) (a : A)
    → (Mem a l → Mem a m)
    → Mem a (x ∷ l)
    → Mem a (x ∷ m)
mem_under x l m a f h =
    Or.elim (Mem-prop {a = a} {l = x ∷ m}) (mem-cons.0 h)
      (λ e. subst (λ b. Mem b (x ∷ m)) (sym e) mem-cons_self) (λ n. mem-cons_of_mem x (f n))

module _ {A : Type 0} (same : A → A → Bool) (sound : (a b : A) → same a b ≡ true → a ≡ b) where
  mem-dedup_from : (x : A) (ys : List A) (a : A) → Mem a (dedup_from same x ys) ↔ Mem a (x ∷ ys)
  mem-dedup_from x [] a = (λ m. m, λ m. m)
  mem-dedup_from x (y ∷ ys) a = elim (Bool-cases (same x y)) [
    | inl e ↦ rw e (
        let (p, q) = mem-dedup_from x ys a in
        (
          λ m. mem_under x ys (y ∷ ys) a (mem-cons_of_mem y) (p m),
          λ m. q (
              Or.elim (Mem-prop {a = a} {l = x ∷ ys}) (mem-cons.0 m)
                (λ f. subst (λ b. Mem b (x ∷ ys)) (sym f) mem-cons_self)
                (subst (λ b. Mem a (b ∷ ys)) (sym (sound x y e)))),
        ))
    | inr e ↦ rw e (
        let (p, q) = mem-dedup_from y ys a in
        (
          mem_under x (dedup_from same y ys) (y ∷ ys) a p,
          mem_under x (y ∷ ys) (dedup_from same y ys) a q,
        ))
  ]

  pub mem-dedup : (l : List A) (a : A) → Mem a (dedup same l) ↔ Mem a l
  mem-dedup [] a = (λ m. m, λ m. m)
  mem-dedup (x ∷ xs) a = mem-dedup_from x xs a

  module _ (reflexive : (a : A) → same a a ≡ true) (o : Order A)
      (antisymm : (a b : A) → Le o a b → Le o b a → a ≡ b) where
    -- Before it, and not equal.
    Before : A → A → Type 0
    Before a b = Le o a b × (a ≢ b)

    dedup_from-Before :
        (x : A) (ys : List A) → IsSorted o (x ∷ ys) → Pairwise Before (dedup_from same x ys)
    unfolding Before
    dedup_from-Before x [] s = Pairwise-singleton _ x
    dedup_from-Before x (y ∷ ys) (Pairwise.cons h (Pairwise.cons k s)) =
        elim (Bool-cases (same x y)) [
          | inl e ↦
              rw e (dedup_from-Before x ys (Pairwise.cons (λ a m. h a (mem-cons_of_mem y m)) s))
          | inr e ↦ rw e (
              Pairwise.cons
                (λ a m.
                  let n = (mem-dedup_from y ys a).0 m in
                  (
                    h a n,
                    λ x_is_a.
                        let a_y = subst (λ b. Le o b y) x_is_a (h y mem-cons_self) in
                        let y_a = below_all o y y ys (Le_refl o y) k a n in
                        absurd (
                          ground (
                            arith,
                            e,
                            subst (λ b. same x b ≡ true) (x_is_a ∙ antisymm a y a_y y_a)
                                (reflexive x),
                          )),
                  ))
                (dedup_from-Before y ys (Pairwise.cons k s)))
        ]

    -- The elements of a sorted list, sorted and without repetition.
    pub dedup-Nodup : (l : List A) → IsSorted o l → IsSorted o (dedup same l) × Nodup (dedup same l)
    unfolding Before
    dedup-Nodup [] s = (Pairwise.nil, Pairwise.nil)
    dedup-Nodup (x ∷ xs) s =
        let p = dedup_from-Before x xs s in
        (Pairwise.imp (λ a b h. h.0) p, Pairwise.imp (λ a b h. h.1) p)
