-- ===== src/Utils/PrettySize.antt =====
-- The sizes of src/utils.rs as text.
use hprof_slurp.Prelude.{ℕ, ◌++◌, Bool, if◌then◌else◌, ℤ, pos, negsuc, suc}
use hprof_slurp.Nom
use hprof_slurp.Text.{text}

-- `f64`, with the operations that `pretty_bytes_size` takes of it.
pub record F64 : Type 1 where
  pub Float : Type 0
  pub from_u64 : ℕ → Float
  pub mul : Float → Float → Float
  pub div : Float → Float → Float
  pub ge : Float → Float → Bool
  -- `{:.2}`
  pub two_decimals : Float → Nom.Bytes

module _ (f64 : F64) where
  open f64 use {Float, from_u64, mul, div, ge, two_decimals}

  abbrev pub kilobyte : Float
  kilobyte = from_u64 1024

  abbrev pub megabyte : Float
  megabyte = mul kilobyte kilobyte

  abbrev pub gigabyte : Float
  gigabyte = mul kilobyte megabyte

  abbrev pub with_unit : Float → Nom.Bytes → Nom.Bytes
  with_unit value unit = two_decimals value ++ unit

  unfoldable pub pretty_bytes_size : ℕ → Nom.Bytes
  pretty_bytes_size len =
      let float_len = from_u64 len in
      if ge float_len gigabyte
      then with_unit (div float_len gigabyte) (text "GiB")
      else if ge float_len megabyte
      then with_unit (div float_len megabyte) (text "MiB")
      else if ge float_len kilobyte
      then with_unit (div float_len kilobyte) (text "KiB")
      else with_unit float_len (text "bytes")

  -- A sign, and the size of the delta's absolute value.
  unfoldable pub pretty_signed_bytes_size : ℤ → Nom.Bytes
  pretty_signed_bytes_size (pos n) = text "+" ++ pretty_bytes_size n
  pretty_signed_bytes_size (negsuc n) = text "-" ++ pretty_bytes_size (suc n)
