-- ===== src/Sort/Laws.antt =====
-- What sorting promises: the same elements, in order, and those that tie in the order they had.
use mathlib.Core.Logic.Or
use mathlib.Core.Bool.{Bool-set}
use mathlib.Core.List.{
  Mem, Perm, Pairwise, Pairwise-singleton, mem-cons, mem-cons_self, mem-cons_of_mem,
}
use mathlib.Core.List.Pairwise
use mathlib.Core.List.Perm
use hprof_slurp.Prelude.{
  ◌≡◌, refl, ap, suc, length, ◌∙◌, sym, subst, true, List, [], ◌∷◌, Bool-cases, inl, inr, arith,
}
use hprof_slurp.Sort.{insert, sort}
use hprof_slurp.Sort.Orders.{Order, then_by, then_le_intro, then_le_first}

module _ {A : Type 0} (o : Order A) where
  -- In order.
  abbrev pub Le : A → A → Type 0
  Le a b = o.le a b ≡ true

  abbrev pub IsSorted : List A → Type 0
  IsSorted = Pairwise Le

  pub Le_refl : (a : A) → Le a a
  Le_refl a = elim (Bool-cases (o.le a a)) [ inl e ↦ e | inr e ↦ o.total a a e ]

  pub insert-Perm : (x : A) (l : List A) → Perm (insert o x l) (x ∷ l)
  insert-Perm x [] = Perm.rfl
  insert-Perm x (y ∷ ys) = elim (Bool-cases (o.le x y)) [
    | inl e ↦ rw e Perm.rfl
    | inr e ↦ rw e (Perm.trans (Perm.cons y (insert-Perm x ys)) (Perm.swap x y ys))
  ]

  pub sort-Perm : (l : List A) → Perm (sort o l) l
  sort-Perm [] = Perm.rfl
  sort-Perm (x ∷ xs) = Perm.trans (insert-Perm x (sort o xs)) (Perm.cons x (sort-Perm xs))

  pub below_all :
      (a x : A) (l : List A)
      → Le a x
      → ((b : A) → Mem b l → Le a b)
      → (b : A) → Mem b (x ∷ l)
      → Le a b
  below_all a x l p h b m =
      Or.elim (Bool-set _ _) (mem-cons.0 m) (λ e. subst (Le a) (sym e) p) (h b)

  pub length-insert : (x : A) (l : List A) → length (insert o x l) ≡ suc (length l)
  length-insert x [] = refl
  length-insert x (y ∷ ys) = elim (Bool-cases (o.le x y)) [
    | inl e ↦ rw e refl
    | inr e ↦ rw e (ap suc (length-insert x ys))
  ]

  pub length-sort : (l : List A) → length (sort o l) ≡ length l
  length-sort [] = refl
  length-sort (x ∷ xs) = length-insert x (sort o xs) ∙ ap suc (length-sort xs)

  -- What is below the head of a sorted list is below all of it.
  pub IsSorted-head :
      (x y : A) (ys : List A)
      → Le x y
      → ((b : A) → Mem b ys → Le y b)
      → (a : A) → Mem a (y ∷ ys)
      → Le x a
  IsSorted-head x y ys e h = below_all x y ys e λ b m. o.trans x y b e (h b m)

module _ {A : Type 0} (o p : Order A) where
  -- In front of elements that it does not exceed by `p`, an element finds its place by `o`.
  insert_stable :
      (x : A) (l : List A)
      → ((a : A) → Mem a l → Le p x a)
      → IsSorted (then_by o p) l
      → IsSorted (then_by o p) (insert o x l)
  insert_stable x [] h s = Pairwise-singleton _ x
  insert_stable x (y ∷ ys) h (Pairwise.cons below s) = elim (Bool-cases (o.le x y)) [
    | inl e ↦ rw e (
        Pairwise.cons
          (λ a m.
            then_le_intro o p x a
              (IsSorted-head o x y ys e (λ b n. then_le_first o p y b (below b n)) a m) λ _. h a m)
          (Pairwise.cons below s))
    | inr e ↦ rw e (
        Pairwise.cons
          (λ a m.
            below_all (then_by o p) y x ys
              (then_le_intro o p y x (o.total x y e) λ k. absurd (ground (arith, e, k))) below a
              ((Perm.mem_iff (insert-Perm o x ys)).0 m))
          (insert_stable x ys (λ a m. h a (mem-cons_of_mem y m)) s))
  ]

  -- Elements that tie keep their order.
  pub sort_stable : (l : List A) → IsSorted p l → IsSorted (then_by o p) (sort o l)
  sort_stable [] Pairwise.nil = Pairwise.nil
  sort_stable (x ∷ xs) (Pairwise.cons below s) =
      insert_stable x (sort o xs) (λ a m. below a ((Perm.mem_iff (sort-Perm o xs)).0 m))
        (sort_stable xs s)

-- An order in which all elements tie.
abbrev pub any : {A : Type 0} → Order A
any = record { le = λ _ _. true; total = λ _ _ _. refl; trans = λ _ _ _ _ _. refl }

pub any-IsSorted : {A : Type 0} (l : List A) → IsSorted (any {A = A}) l
any-IsSorted [] = Pairwise.nil
any-IsSorted (x ∷ xs) = Pairwise.cons (λ _ _. refl) (any-IsSorted xs)

module _ {A : Type 0} (o : Order A) where
  pub IsSorted-then_by : (p : Order A) (l : List A) → IsSorted (then_by o p) l → IsSorted o l
  IsSorted-then_by p [] Pairwise.nil = Pairwise.nil
  IsSorted-then_by p (x ∷ xs) (Pairwise.cons h s) =
      Pairwise.cons (λ a m. then_le_first o p x a (h a m)) (IsSorted-then_by p xs s)

  pub sort-IsSorted : (l : List A) → IsSorted o (sort o l)
  sort-IsSorted l = IsSorted-then_by any (sort o l) (sort_stable o any l (any-IsSorted l))

  module _ (antisymm : (a b : A) → Le o a b → Le o b a → a ≡ b) where
    head_le : (a b : A) (l r : List A) → IsSorted o (a ∷ l) → Perm (b ∷ r) (a ∷ l) → Le o a b
    head_le a b l r (Pairwise.cons h s) q =
        below_all o a a l (Le_refl o a) h b ((Perm.mem_iff q).0 mem-cons_self)

    -- When only equal elements tie, there is one way to sort.
    pub sorted_unique : (l r : List A) → IsSorted o l → IsSorted o r → Perm l r → l ≡ r
    sorted_unique [] r s t q = Perm.nil-eq q
    sorted_unique (a ∷ l) [] s t q = Perm.eq-nil q
    sorted_unique (a ∷ l) (b ∷ r) s t q =
        let same = antisymm a b (head_le a b l r s (Perm.symm q)) (head_le b a r l t q) in
        let rest = Perm.cons_inv (subst (λ x. Perm (x ∷ l) (b ∷ r)) same q) in
        let eq = sorted_unique l r (Pairwise.of_cons s) (Pairwise.of_cons t) rest in
        λ i. same i ∷ eq i

    -- The order in which elements come does not matter.
    pub sort-Perm_unique : (l r : List A) → Perm l r → sort o l ≡ sort o r
    sort-Perm_unique l r q =
        sorted_unique (sort o l) (sort o r) (sort-IsSorted l) (sort-IsSorted r)
          (Perm.trans (sort-Perm o l) (Perm.trans q (Perm.symm (sort-Perm o r))))
