-- ===== src/Parser/Primitive.antt =====
-- src/parser/primitive_parsers.rs: big-endian numbers and zero-terminated text.
use hprof_slurp.Prelude.{ℕ, ℤ, Option, none, some, [], ◌∷◌}
use hprof_slurp.Nom.{Nom, Bytes, Parser, IResult, ok, incomplete, error, failure, panicked}

-- A closure that panics returns `none` here, and `unwind` lets the panic pass through the parser
-- that called it.
abbrev pub raise : {A : Type 0} → IResult (Option A) → IResult A
raise (ok rest none) = panicked
raise (ok rest (some a)) = ok rest a
raise (incomplete n) = incomplete n
raise error = error
raise failure = failure
raise panicked = panicked

abbrev pub unwind : {A : Type 0} → Parser (Option A) → Parser A
unwind p i = raise (p i)

module _ (nom : Nom) where
  unfoldable pub parse_c_string : Parser Bytes
  parse_c_string = nom.terminated (nom.take_until (0 ∷ [])) (nom.tag (0 ∷ []))

  unfoldable pub parse_i8 : Parser ℤ
  parse_i8 = nom.be_i8

  unfoldable pub parse_i16 : Parser ℤ
  parse_i16 = nom.be_i16

  unfoldable pub parse_i32 : Parser ℤ
  parse_i32 = nom.be_i32

  unfoldable pub parse_i64 : Parser ℤ
  parse_i64 = nom.be_i64

  unfoldable pub parse_u16 : Parser ℕ
  parse_u16 = nom.be_u16

  unfoldable pub parse_u32 : Parser ℕ
  parse_u32 = nom.be_u32

  unfoldable pub parse_u64 : Parser ℕ
  parse_u64 = nom.be_u64

  unfoldable pub parse_f32 : Parser ℕ
  parse_f32 = nom.be_f32

  unfoldable pub parse_f64 : Parser ℕ
  parse_f64 = nom.be_f64

  unfoldable pub parse_u8 : Parser ℕ
  parse_u8 = nom.be_u8
