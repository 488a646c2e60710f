-- ===== src/Nom.antt =====
-- The parser library nom, of which the program calls the items below. It is not part of the
-- repository: its operations are the parameter `Nom` of every parser, and `NomLaws` states what its
-- documentation says of them.
pub mod Reference
pub mod Streams
pub mod Reads
use hprof_slurp.Prelude.{
  ℕ, zero, suc, ◌-◌, ◌*◌, ◌+◌, ◌≡◌, List, [], ◌∷◌, ◌++◌, leb, if◌then◌else◌, length, take, drop,
  ◌==◌, ℤ, signed,
}

abbrev pub Bytes : Type 0
Bytes = List ℕ

pub data Needed : Type 0 where
  unknown : Needed
  size : ℕ → Needed

-- `nom::IResult<&[u8], A>`: `ok rest a` is `Ok((rest, a))`, the next three are the variants of
-- `nom::Err` without the error's content, which the program only prints. `panicked` is no nom value:
-- a closure that the parser ran has panicked.
pub data IResult (A : Type 0) : Type 0 where
  ok : Bytes → A → IResult A
  incomplete : Needed → IResult A
  error failure panicked : IResult A

abbrev pub Parser : Type 0 → Type 0
Parser A = Bytes → IResult A

-- What `?` and `Result::and_then` do with a result: go on after `Ok`, hand on anything else.
infixl 5 ◌and_then◌
abbrev pub ◌and_then◌ : {A B : Type 0} → IResult A → (A → Parser B) → IResult B
ok rest a and_then f = f a rest
incomplete n and_then f = incomplete n
error and_then f = error
failure and_then f = failure
panicked and_then f = panicked

-- `Result::map` on the parsed value.
abbrev pub map_ok : {A B : Type 0} → (A → B) → IResult A → IResult B
map_ok f r = r and_then λ a rest. ok rest (f a)

-- The value of bytes in big-endian order, behind the digits in `acc`.
abbrev pub be_value : ℕ → Bytes → ℕ
be_value acc [] = acc
be_value acc (b ∷ bs) = be_value (acc * 256 + b) bs

-- `n` bytes of the input, or how many of them are missing.
abbrev pub take_bytes : ℕ → Parser Bytes
take_bytes n i =
    if leb n (length i) then ok (drop n i) (take n i) else incomplete (size (n - length i))

abbrev pub be_uint : ℕ → Parser ℕ
be_uint n i = map_ok (be_value 0) (take_bytes n i)

-- A parser `n` times in a row.
abbrev pub repeat : {A : Type 0} → Parser A → ℕ → Parser (List A)
repeat p zero i = ok i []
repeat p (suc n) i = p i and_then λ a r. repeat p n r and_then λ rest r'. ok r' (a ∷ rest)

-- The input up to the first byte `c`, which stays in the rest.
abbrev pub until_byte : ℕ → Parser Bytes
until_byte c [] = incomplete unknown
until_byte c (b ∷ bs) =
    let later = until_byte c bs in
    if b == c then ok (b ∷ bs) [] else map_ok (λ front. b ∷ front) later

-- One given byte.
abbrev pub one_byte : ℕ → Parser Bytes
one_byte c [] = incomplete (size 1)
one_byte c (b ∷ bs) = if b == c then ok bs (b ∷ []) else error

-- The items of `nom::number::streaming`, `nom::bytes::streaming`, `nom::combinator`,
-- `nom::multi`, `nom::sequence` and the `Parser` instances of tuples that the program uses. An
-- `f32` or `f64` is its bit pattern.
pub record Nom : Type 1 where
  pub be_u8 : Parser ℕ
  pub be_u16 : Parser ℕ
  pub be_u32 : Parser ℕ
  pub be_u64 : Parser ℕ
  pub be_i8 : Parser ℤ
  pub be_i16 : Parser ℤ
  pub be_i32 : Parser ℤ
  pub be_i64 : Parser ℤ
  pub be_f32 : Parser ℕ
  pub be_f64 : Parser ℕ
  pub take : ℕ → Parser Bytes
  pub take_until : Bytes → Parser Bytes
  pub tag : Bytes → Parser Bytes
  pub map : {A B : Type 0} → Parser A → (A → B) → Parser B
  pub flat_map : {A B : Type 0} → Parser A → (A → Parser B) → Parser B
  pub count : {A : Type 0} → Parser A → ℕ → Parser (List A)
  pub preceded : {A B : Type 0} → Parser A → Parser B → Parser B
  pub terminated : {A B : Type 0} → Parser A → Parser B → Parser A
  pub tuple2 : {A B : Type 0} → Parser A → Parser B → Parser (A × B)
  pub tuple3 : {A B C : Type 0} → Parser A → Parser B → Parser C → Parser (A × B × C)
  pub tuple4 :
      {A B C D : Type 0} → Parser A → Parser B → Parser C → Parser D → Parser (A × B × C × D)
  pub tuple6 :
      {A B C D E F : Type 0}
      → Parser A
      → Parser B
      → Parser C
      → Parser D
      → Parser E
      → Parser F
      → Parser (A × B × C × D × E × F)
  pub tuple7 :
      {A B C D E F G : Type 0}
      → Parser A
      → Parser B
      → Parser C
      → Parser D
      → Parser E
      → Parser F
      → Parser G
      → Parser (A × B × C × D × E × F × G)
  pub tuple10 :
      {A B C D E F G H I J : Type 0}
      → Parser A
      → Parser B
      → Parser C
      → Parser D
      → Parser E
      → Parser F
      → Parser G
      → Parser H
      → Parser I
      → Parser J
      → Parser (A × B × C × D × E × F × G × H × I × J)

-- A tuple of parsers runs them in turn; here the first, and what is to be done with its value.
abbrev pub seq : {A B : Type 0} → Parser A → (A → Parser B) → Parser B
seq p f i = p i and_then f

pub record NomLaws (nom : Nom) : Type 1 where
  pub be_u8_lem : nom.be_u8 ≡ be_uint 1
  pub be_u16_lem : nom.be_u16 ≡ be_uint 2
  pub be_u32_lem : nom.be_u32 ≡ be_uint 4
  pub be_u64_lem : nom.be_u64 ≡ be_uint 8
  pub be_i8_lem : nom.be_i8 ≡ λ i. map_ok (signed 8) (be_uint 1 i)
  pub be_i16_lem : nom.be_i16 ≡ λ i. map_ok (signed 16) (be_uint 2 i)
  pub be_i32_lem : nom.be_i32 ≡ λ i. map_ok (signed 32) (be_uint 4 i)
  pub be_i64_lem : nom.be_i64 ≡ λ i. map_ok (signed 64) (be_uint 8 i)
  pub be_f32_lem : nom.be_f32 ≡ be_uint 4
  pub be_f64_lem : nom.be_f64 ≡ be_uint 8
  pub take_lem : (n : ℕ) → nom.take n ≡ take_bytes n
  pub take_until_lem : (c : ℕ) → nom.take_until (c ∷ []) ≡ until_byte c
  pub tag_lem : (c : ℕ) → nom.tag (c ∷ []) ≡ one_byte c
  pub map_lem : {A B : Type 0} (p : Parser A) (f : A → B) → nom.map p f ≡ seq p (λ a i. ok i (f a))
  pub flat_map_lem : {A B : Type 0} (p : Parser A) (f : A → Parser B) → nom.flat_map p f ≡ seq p f
  pub count_lem : {A : Type 0} (p : Parser A) (n : ℕ) → nom.count p n ≡ repeat p n
  pub preceded_lem :
      {A B : Type 0} (p : Parser A) (q : Parser B) → nom.preceded p q ≡ seq p (λ _. q)
  pub terminated_lem :
      {A B : Type 0} (p : Parser A) (q : Parser B)
      → nom.terminated p q ≡ seq p (λ a. seq q (λ _ i. ok i a))
  pub tuple2_lem :
      {A B : Type 0} (p : Parser A) (q : Parser B)
      → nom.tuple2 p q ≡ seq p (λ a. seq q (λ b i. ok i (a, b)))
  pub tuple3_lem :
      {A B C : Type 0} (p : Parser A) (q : Parser B) (r : Parser C)
      → nom.tuple3 p q r ≡ seq p (λ a. seq q (λ b. seq r (λ c i. ok i (a, b, c))))
  pub tuple4_lem :
      {A B C D : Type 0} (p : Parser A) (q : Parser B) (r : Parser C) (s : Parser D)
      → nom.tuple4 p q r s ≡ seq p (λ a. seq q (λ b. seq r (λ c. seq s (λ d i. ok i (a, b, c, d)))))
  pub tuple6_lem :
      {A B C D E F : Type 0} (p : Parser A) (q : Parser B) (r : Parser C) (s : Parser D)
      (t : Parser E) (u : Parser F)
      → nom.tuple6 p q r s t u
        ≡ seq p (λ a.
          seq q
            (λ b. seq r (λ c. seq s (λ d. seq t (λ e. seq u (λ f i. ok i (a, b, c, d, e, f)))))))
  pub tuple7_lem :
      {A B C D E F G : Type 0} (p : Parser A) (q : Parser B) (r : Parser C) (s : Parser D)
      (t : Parser E) (u : Parser F) (v : Parser G)
      → nom.tuple7 p q r s t u v
        ≡ seq p (λ a. seq q (λ b.
          seq r (λ c.
            seq s (λ d. seq t (λ e. seq u (λ f. seq v (λ g i. ok i (a, b, c, d, e, f, g))))))))
  pub tuple10_lem :
      {A B C D E F G H I J : Type 0} (p : Parser A) (q : Parser B) (r : Parser C) (s : Parser D)
      (t : Parser E) (u : Parser F) (v : Parser G) (w : Parser H) (x : Parser I) (y : Parser J)
      → nom.tuple10 p q r s t u v w x y
        ≡ seq p (λ a. seq q (λ b. seq r (λ c. seq s (λ d. seq t (λ e. seq u (λ f.
          seq v (λ g.
            seq w (λ h. seq x (λ k. seq y (λ l i. ok i (a, b, c, d, e, f, g, h, k, l)))))))))))
