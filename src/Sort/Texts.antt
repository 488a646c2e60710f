-- ===== src/Sort/Texts.antt =====
-- The order of strings, spelled out.
use hprof_slurp.Prelude.{
  ℕ, ◌<◌, ◌≡◌, subst, inl, inr, true, [], ◌∷◌, arith, Bool-cases, ==_iff, ◌==◌,
}
use hprof_slurp.Nom.{Bytes}
use hprof_slurp.Sort.Orders.{lexicographic_le}

-- The empty text comes before all others, and else the first bytes that differ decide.
pub data AtMost : Bytes → Bytes → Type 0 where
  ended : {t : Bytes} → AtMost [] t
  lesser : {x y : ℕ} {s t : Bytes} → x < y → AtMost (x ∷ s) (y ∷ t)
  equal : {x : ℕ} {s t : Bytes} → AtMost s t → AtMost (x ∷ s) (x ∷ t)

pub lexicographic_le-AtMost : (s t : Bytes) → lexicographic_le s t ≡ true → AtMost s t
lexicographic_le-AtMost [] t h = ended
lexicographic_le-AtMost (x ∷ s) [] h = absurd (ground arith)
lexicographic_le-AtMost (x ∷ s) (y ∷ t) h = elim (Bool-cases (x == y)) [
  | inl e ↦
      subst (λ z. AtMost (x ∷ s) (z ∷ t)) ((==_iff x y).0 e)
        (equal (lexicographic_le-AtMost s t (ground (arith, e, h))))
  | inr e ↦ lesser (ground (arith, e, h))
]
