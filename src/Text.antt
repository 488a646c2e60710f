-- ===== src/Text.antt =====
-- Text as its UTF-8 bytes, and the formats of Rust's standard library that the program prints with.
pub mod Digits
pub mod Padding
use Prim.Native.Char.{code}
use Prim.Native.String.{String}
use hprof_slurp.Prelude.{ℕ, ◌+◌, ◌/◌, ◌%◌, ◌++◌, [], ◌∷◌, ltb, leb, if◌then◌else◌, ◌&&◌, Bool}
use hprof_slurp.Nom.{Bytes}

-- The bytes of one character.
abbrev pub encode : ℕ → Bytes
encode c =
    if ltb c 0x80
    then c ∷ []
    else if ltb c 0x800
    then (0xc0 + c / 64) ∷ (0x80 + c % 64) ∷ []
    else if ltb c 0x10000
    then (0xe0 + c / 4096) ∷ (0x80 + c / 64 % 64) ∷ (0x80 + c % 64) ∷ []
    else (0xf0 + c / 262144) ∷ (0x80 + c / 4096 % 64) ∷ (0x80 + c / 64 % 64) ∷ (0x80 + c % 64) ∷ []

abbrev pub text : String → Bytes
text String.[] = []
text (String.◌∷◌ c s) = encode (code c) ++ text s

-- `chars().count()`: each character has one byte that is no continuation byte.
abbrev pub is_continuation : ℕ → Bool
is_continuation b = leb 0x80 b && ltb b 0xc0

abbrev pub char_count : Bytes → ℕ
char_count [] = 0
char_count (b ∷ bs) = (if is_continuation b then 0 else 1) + char_count bs
