-- ===== src/Slurp/Header.antt =====
-- `slurp_header` of src/slurp.rs.
use hprof_slurp.Prelude.{
  ℕ, ◌≤◌, append-nil, ◌≡◌, refl, sym, ap, ◌∙◌, Bool, true, false, not, ◌&&◌, ◌||◌, [], ◌∷◌, ◌++◌,
  append_assoc, length, length-append, take, drop, take-length, drop-length, ltb, ◌==◌,
  if◌then◌else◌, All, arith,
}
use hprof_slurp.Nom.{
  Nom, NomLaws, Bytes, IResult, ok, incomplete, error, failure, panicked, until_byte,
}
use hprof_slurp.Nom.Reads.{
  Reads, Fits, be_bytes, length-be_bytes, Reads-be_u32, Reads-be_u64, Reads-map,
}
use hprof_slurp.Nom.Reads.Combinators.{Reads-tuple3}
use hprof_slurp.Parser.Primitive.{parse_c_string, parse_u32, parse_u64}
use hprof_slurp.Parser.FileHeader.{FileHeader, from_bytes, parse_file_header}

-- The program's errors, without the texts and the other libraries' errors that they carry.
pub data HprofSlurpError : Type 0 where
  input_file_not_found invalid_id_size invalid_header_size invalid_hprof_file : HprofSlurpError
  clap_error std_io_error std_thread_error serde_error : HprofSlurpError

-- A result of the program, or a panic; `stuck` is no outcome of the program, it says that the
-- model's fuel ran out.
pub data Result (A : Type 0) : Type 0 where
  done : A → Result A
  err : HprofSlurpError → Result A
  panics stuck : Result A

-- `FILE_HEADER_LENGTH`
abbrev pub file_header_length : ℕ
file_header_length = 31

abbrev is_empty : Bytes → Bool
is_empty [] = true
is_empty (_ ∷ _) = false

-- What follows the call of `parse_file_header`; `reader` is what the reader has left.
abbrev pub check_header : Bytes → IResult FileHeader → Result (FileHeader × Bytes)
check_header reader (ok rest header) =
    if not (header.size_pointers == 4) && not (header.size_pointers == 8)
    then err invalid_id_size
    else if not (is_empty rest)
    then err invalid_header_size
    else done (header, reader)
check_header reader (incomplete n) = err invalid_hprof_file
check_header reader error = err invalid_hprof_file
check_header reader failure = err invalid_hprof_file
check_header reader panicked = panics

unfoldable pub slurp_header : Nom → Bytes → Result (FileHeader × Bytes)
slurp_header nom reader =
    if ltb (length reader) file_header_length
    then err std_io_error
    else check_header (drop file_header_length reader)
        (parse_file_header nom (take file_header_length reader))

-- The header as the format lays it down: a text, a zero byte, the size of ids, and a timestamp.
abbrev pub write_file_header : Bytes → ℕ → ℕ → Bytes
write_file_header text id_size timestamp =
    (text ++ 0 ∷ []) ++ (be_bytes 4 id_size ++ be_bytes 8 timestamp)

pub length-file_header :
    (text : Bytes) (id_size timestamp : ℕ)
    → length text ≡ 18
    → length (write_file_header text id_size timestamp) ≡ 31
length-file_header text id_size timestamp h = omega (
  arith,
  h,
  length-append text (0 ∷ []),
  length-append (text ++ 0 ∷ []) (be_bytes 4 id_size ++ be_bytes 8 timestamp),
  length-append (be_bytes 4 id_size) (be_bytes 8 timestamp),
  length-be_bytes 4 id_size,
  length-be_bytes 8 timestamp,
)

not_short : (n : ℕ) → 31 ≤ n → ltb n 31 ≡ false
not_short n h = ground arith

accepted :
    {A : Type 0} (a : A) (e : HprofSlurpError) (b c : Bool)
    → (if not b && not c then err e else done a) ≡ (if b || c then done a else err e)
accepted a e true c = refl
accepted a e false true = refl
accepted a e false false = refl

until_zero :
    (text rest : Bytes)
    → All (λ b. (b == 0) ≡ false) text
    → until_byte 0 (text ++ 0 ∷ rest) ≡ ok (0 ∷ rest) text
until_zero [] rest h = refl
until_zero (b ∷ text) rest h = rw (until_zero text rest h.1, h.0) refl

module _ {nom : Nom} (laws : NomLaws nom) where
  Reads-c_string :
      (text : Bytes)
      → All (λ b. (b == 0) ≡ false) text
      → Reads (parse_c_string nom) (text ++ 0 ∷ []) text
  unfolding parse_c_string
  Reads-c_string text h = record {
    at = λ rest.
        rw
          (
            laws.terminated_lem (nom.take_until (0 ∷ [])) (nom.tag (0 ∷ [])),
            laws.take_until_lem 0,
            laws.tag_lem 0,
            append_assoc,
            until_zero text rest h,
          )
          refl;
  }

  Reads-file_header :
      (text : Bytes) (id_size timestamp : ℕ)
      → All (λ b. (b == 0) ≡ false) text
      → Fits 4 id_size
      → Fits 8 timestamp
      → Reads
          (parse_file_header nom)
          (write_file_header text id_size timestamp)
          (from_bytes text id_size timestamp)
  unfolding parse_file_header parse_u32 parse_u64
  Reads-file_header text id_size timestamp ht hn hs = Reads-map laws (
      Reads-tuple3 laws (Reads-c_string text ht) (Reads-be_u32 laws id_size hn)
        (Reads-be_u64 laws timestamp hs))

  -- A file that starts with a header whose text has 18 bytes, none of them zero, is accepted, with the
  -- rest of the file left to read, if its ids have 4 or 8 bytes, and else rejected for their size.
  pub slurp_header_lem :
      (text : Bytes) (id_size timestamp : ℕ) (rest : Bytes)
      → length text ≡ 18
      → All (λ b. (b == 0) ≡ false) text
      → Fits 4 id_size
      → Fits 8 timestamp
      → slurp_header nom (write_file_header text id_size timestamp ++ rest) ≡ (
          if (id_size == 4) || (id_size == 8)
          then done (from_bytes text id_size timestamp, rest)
          else err invalid_id_size)
  unfolding slurp_header
  slurp_header_lem text id_size timestamp rest hl ht hn hs =
      let w = write_file_header text id_size timestamp in
      let len : length w ≡ 31 = length-file_header text id_size timestamp hl in
      let all = length-append w rest in
      let parsed : parse_file_header nom w ≡ ok [] (from_bytes text id_size timestamp) =
        ap (parse_file_header nom) (sym (append-nil w))
        ∙ (Reads-file_header text id_size timestamp ht hn hs).at [] in
      rw
        (
          not_short (length (w ++ rest)) (omega (arith, len, all)),
          ap (λ k. take k (w ++ rest)) (sym len) ∙ take-length w rest,
          ap (λ k. drop k (w ++ rest)) (sym len) ∙ drop-length w rest,
          parsed,
        )
        (accepted _ _ (id_size == 4) (id_size == 8))
