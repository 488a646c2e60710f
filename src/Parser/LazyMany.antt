-- ===== src/Parser/LazyMany.antt =====
-- `lazy_many1` of src/parser/record_parser.rs: nom's `many1`, which keeps what it has on `Incomplete`.
pub mod Reaches
pub mod Maximal
use hprof_slurp.Prelude.{
  ℕ, zero, suc, Bool, true, false, Option, none, some, List, [], ◌∷◌, ◌++◌, length, ◌==◌,
  if◌then◌else◌, ◌&&◌,
}
use hprof_slurp.Nom.{Parser, IResult, Bytes, ok, incomplete, error, failure, panicked}

-- `i1 == i`.
abbrev pub bytes_eq : Bytes → Bytes → Bool
bytes_eq [] [] = true
bytes_eq [] (_ ∷ _) = false
bytes_eq (_ ∷ _) [] = false
bytes_eq (x ∷ xs) (y ∷ ys) = x == y && bytes_eq xs ys

-- What a run leaves behind: its result, the parser's state, and the vector.
pub record Run (S O : Type 0) : Type 0 where
  pub result : IResult (Unit {0})
  pub state : S
  pub pooled_vec : List O

module _ {S O : Type 0} (f : S → Parser (O × S)) where
  -- The `loop`, on fuel; `none` means that the fuel ran out.
  unfoldable pub many_loop : ℕ → S → Bytes → List O → Option (Run S O)
  many_loop zero s i acc = none
  many_loop (suc fuel) s i acc = elim (f s i) [
    | ok i1 (o, s1) ↦
        let rest = many_loop fuel s1 i1 (acc ++ o ∷ []) in
        if bytes_eq i1 i
        then some (record { result = error; state = s1; pooled_vec = acc })
        else rest
    | incomplete n ↦ some (record { result = ok i tt; state = s; pooled_vec = acc })
    | error ↦ some (record { result = ok i tt; state = s; pooled_vec = acc })
    | failure ↦ some (record { result = failure; state = s; pooled_vec = acc })
    | panicked ↦ some (record { result = panicked; state = s; pooled_vec = acc })
  ]

  -- The first element has to be there. Each later one takes a byte, so the rest's length is fuel
  -- enough.
  unfoldable pub lazy_many1 : S → Bytes → List O → Option (Run S O)
  lazy_many1 s i pooled_vec = elim (f s i) [
    | ok i1 (o, s1) ↦ many_loop (suc (length i1)) s1 i1 (pooled_vec ++ o ∷ [])
    | incomplete n ↦ some (record { result = incomplete n; state = s; pooled_vec = pooled_vec })
    | error ↦ some (record { result = error; state = s; pooled_vec = pooled_vec })
    | failure ↦ some (record { result = failure; state = s; pooled_vec = pooled_vec })
    | panicked ↦ some (record { result = panicked; state = s; pooled_vec = pooled_vec })
  ]
