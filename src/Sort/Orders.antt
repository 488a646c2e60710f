-- ===== src/Sort/Orders.antt =====
-- Total orders as tests, and the ways in which the program builds them.
use mathlib.Core.Path.{ap₂}
use hprof_slurp.Prelude.{
  ==_iff, ℤ, pos, negsuc, ℕ, ◌≡◌, refl, Bool, true, false, [], ◌∷◌, leb, ltb, ◌==◌, if◌then◌else◌,
  arith, Bool-cases, inl, inr, ◌&&◌, ◌||◌, not,
}
use hprof_slurp.Nom.{Bytes}

pub record Order (A : Type 0) : Type 0 where
  pub le : A → A → Bool
  pub total : (a b : A) → le a b ≡ false → le b a ≡ true
  pub trans : (a b c : A) → le a b ≡ true → le b c ≡ true → le a c ≡ true

pub leb-total : (a b : ℕ) → leb a b ≡ false → leb b a ≡ true
leb-total a b h = ground arith

pub leb_trans : (a b c : ℕ) → leb a b ≡ true → leb b c ≡ true → leb a c ≡ true
leb_trans a b c h k = ground arith

abbrev pub ascending : Order ℕ
ascending = record { le = leb; total = leb-total; trans = leb_trans }

module _ {A : Type 0} where
  -- `Reverse`
  abbrev pub reversed : Order A → Order A
  reversed o = record {
    le = λ a b. o.le b a;
    total = λ a b. o.total b a;
    trans = λ a b c h k. o.trans c b a k h;
  }

  abbrev pub by_key : {B : Type 0} → (B → A) → Order A → Order B
  by_key key o = record {
    le = λ a b. o.le (key a) (key b);
    total = λ a b. o.total (key a) (key b);
    trans = λ a b c. o.trans (key a) (key b) (key c);
  }

  abbrev pub then_le : Order A → Order A → A → A → Bool
  then_le o p a b = o.le a b && (not (o.le b a) || p.le a b)

  -- What a comparison by one order and then by another says.
  pub then_le_intro :
      (o p : Order A) (a b : A)
      → o.le a b ≡ true
      → (o.le b a ≡ true → p.le a b ≡ true)
      → then_le o p a b ≡ true
  then_le_intro o p a b h k = elim (Bool-cases (o.le b a)) [
    | inl e ↦ rw (h, e, k e) refl
    | inr e ↦ rw (h, e) refl
  ]

  pub then_le_first : (o p : Order A) (a b : A) → then_le o p a b ≡ true → o.le a b ≡ true
  then_le_first o p a b h = ground arith

  pub then_le_second :
      (o p : Order A) (a b : A) → then_le o p a b ≡ true → o.le b a ≡ true → p.le a b ≡ true
  then_le_second o p a b h k = ground arith

  -- What ties in both orders ties in each.
  pub then_le_both :
      (o p : Order A) (a b : A)
      → then_le o p a b ≡ true
      → then_le o p b a ≡ true
      → (o.le a b ≡ true) × (o.le b a ≡ true) × (p.le a b ≡ true) × (p.le b a ≡ true)
  then_le_both o p a b h k =
      let ab = then_le_first o p a b h in
      let ba = then_le_first o p b a k in
      (ab, ba, then_le_second o p a b h ba, then_le_second o p b a k ab)

  pub then_le-total : (o p : Order A) (a b : A) → then_le o p a b ≡ false → then_le o p b a ≡ true
  then_le-total o p a b h = elim (Bool-cases (o.le a b)) [
    | inl e ↦ elim (Bool-cases (o.le b a)) [
      | inl f ↦ then_le_intro o p b a f λ _. p.total a b (ground arith)
      | inr f ↦ absurd (ground arith)
    ]
    | inr e ↦ then_le_intro o p b a (o.total a b e) λ k. absurd (ground arith)
  ]

  pub then_le_trans :
      (o p : Order A) (a b c : A)
      → then_le o p a b ≡ true
      → then_le o p b c ≡ true
      → then_le o p a c ≡ true
  then_le_trans o p a b c h k =
      let ab = then_le_first o p a b h in
      let bc = then_le_first o p b c k in
      then_le_intro o p a c (o.trans a b c ab bc) λ ca.
        p.trans a b c (then_le_second o p a b h (o.trans b c a bc ca))
          (then_le_second o p b c k (o.trans c a b ca ab))

  -- `Ordering::then`
  abbrev pub then_by : Order A → Order A → Order A
  then_by o p = record { le = then_le o p; total = then_le-total o p; trans = then_le_trans o p }

-- The order of strings: by their bytes, from the first one on.
abbrev pub lexicographic_le : Bytes → Bytes → Bool
lexicographic_le [] _ = true
lexicographic_le (x ∷ xs) [] = false
lexicographic_le (x ∷ xs) (y ∷ ys) =
    let rest = lexicographic_le xs ys in if x == y then rest else ltb x y

pub lexicographic_le-total :
    (s t : Bytes) → lexicographic_le s t ≡ false → lexicographic_le t s ≡ true
lexicographic_le-total [] t h = ground arith
lexicographic_le-total (x ∷ xs) [] h = refl
lexicographic_le-total (x ∷ xs) (y ∷ ys) h = ground (arith, lexicographic_le-total xs ys)

pub lexicographic_le_trans :
    (s t u : Bytes)
    → lexicographic_le s t ≡ true
    → lexicographic_le t u ≡ true
    → lexicographic_le s u ≡ true
lexicographic_le_trans [] t u h k = refl
lexicographic_le_trans (x ∷ xs) [] u h k = ground arith
lexicographic_le_trans (x ∷ xs) (y ∷ ys) [] h k = ground arith
lexicographic_le_trans (x ∷ xs) (y ∷ ys) (z ∷ zs) h k =
    ground (arith, lexicographic_le_trans xs ys zs)

pub lexicographic_le_antisymm :
    (s t : Bytes) → lexicographic_le s t ≡ true → lexicographic_le t s ≡ true → s ≡ t
lexicographic_le_antisymm [] [] h k = refl
lexicographic_le_antisymm [] (y ∷ ys) h k = absurd (ground arith)
lexicographic_le_antisymm (x ∷ xs) [] h k = absurd (ground arith)
lexicographic_le_antisymm (x ∷ xs) (y ∷ ys) h k = elim (Bool-cases (x == y)) [
  | inl e ↦
      ap₂ ◌∷◌ ((==_iff x y).0 e) (lexicographic_le_antisymm xs ys (ground arith) (ground arith))
  | inr e ↦ absurd (ground arith)
]

abbrev pub lexicographic : Order Bytes
lexicographic = record {
  le = lexicographic_le;
  total = lexicographic_le-total;
  trans = lexicographic_le_trans;
}

-- The order of signed integers.
abbrev pub integer_le : ℤ → ℤ → Bool
integer_le (pos a) (pos b) = leb a b
integer_le (pos a) (negsuc b) = false
integer_le (negsuc a) (pos b) = true
integer_le (negsuc a) (negsuc b) = leb b a

pub integer_le-total : (a b : ℤ) → integer_le a b ≡ false → integer_le b a ≡ true
integer_le-total (pos a) (pos b) h = ground arith
integer_le-total (pos a) (negsuc b) h = refl
integer_le-total (negsuc a) (pos b) h = absurd (ground arith)
integer_le-total (negsuc a) (negsuc b) h = ground arith

pub integer_le_trans :
    (a b c : ℤ) → integer_le a b ≡ true → integer_le b c ≡ true → integer_le a c ≡ true
integer_le_trans (pos a) (pos b) (pos c) h k = ground arith
integer_le_trans (pos a) (pos b) (negsuc c) h k = absurd (ground arith)
integer_le_trans (pos a) (negsuc b) c h k = absurd (ground arith)
integer_le_trans (negsuc a) (pos b) (negsuc c) h k = absurd (ground arith)
integer_le_trans (negsuc a) b (pos c) h k = refl
integer_le_trans (negsuc a) (negsuc b) (negsuc c) h k = ground arith

abbrev pub integers : Order ℤ
integers = record { le = integer_le; total = integer_le-total; trans = integer_le_trans }
