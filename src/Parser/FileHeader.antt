-- ===== src/Parser/FileHeader.antt =====
-- src/parser/file_header_parser.rs: the header in front of all records.
use hprof_slurp.Prelude.{ℕ}
use hprof_slurp.Nom.{Nom, Bytes, Parser}
use hprof_slurp.Utf8.{from_utf8_lossy}
use hprof_slurp.Parser.Primitive.{parse_c_string, parse_u32, parse_u64}

pub record FileHeader : Type 0 where
  pub format : Bytes
  pub size_pointers : ℕ
  pub timestamp : ℕ

abbrev pub from_bytes : Bytes → ℕ → ℕ → FileHeader
from_bytes format_b size_pointers timestamp = record {
  format = from_utf8_lossy format_b;
  size_pointers = size_pointers;
  timestamp = timestamp;
}

unfoldable pub parse_file_header : Nom → Parser FileHeader
parse_file_header nom =
    nom.map (nom.tuple3 (parse_c_string nom) (parse_u32 nom) (parse_u64 nom))
      λ (a, b, c). from_bytes a b c
