-- ===== src/Utils/Tables.antt =====
-- Checks of a table's values by evaluation.
use hprof_slurp.Prelude.{
  ℕ, zero, suc, ◌+◌, ◌<◌, ◌≡◌, Bool, true, false, if◌then◌else◌, arith, subst,
}

-- The test holds of `k` values from `from` on.
unfoldable pub holds_from : (test : ℕ → Bool) (from k : ℕ) → Bool
holds_from test from zero = true
holds_from test from (suc k) =
    let rest = holds_from test (from + 1) k in if test from then rest else false

at_from :
    (test : ℕ → Bool) (from k i : ℕ)
    → holds_from test from k ≡ true
    → i < k
    → test (from + i) ≡ true
unfolding holds_from
at_from test from zero i h lt = absurd (omega arith)
at_from test from (suc k) zero h lt =
    let same : from ≡ from + 0 = omega arith in subst (λ x. test x ≡ true) same (ground arith)
at_from test from (suc k) (suc i) h lt =
    let same : from + 1 + i ≡ from + suc i = omega arith in
    subst (λ x. test x ≡ true) same (at_from test (from + 1) k i (ground arith) (omega arith))

-- What a table was checked for holds of each of its indices.
pub holds_at :
    (size : ℕ) (test : ℕ → Bool)
    → holds_from test 0 size ≡ true
    → (i : ℕ) → i < size
    → test i ≡ true
holds_at size test h i lt =
    let same : 0 + i ≡ i = omega arith in
    subst (λ x. test x ≡ true) same (at_from test 0 size i h lt)
