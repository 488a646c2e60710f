-- ===== src/Parser/Streaming/Fields.antt =====
-- Every parser of src/parser/record_parser.rs keeps the promises of a parser over a stream.
use hprof_slurp.Prelude.{ℕ, none, some, Option, List}
use hprof_slurp.Nom.{Nom, NomLaws, Parser, IResult}
use hprof_slurp.Nom.Streams.{
  Streams, Streams-seq, Grows, reads, waits, panics, Waits, wait, stream_rules,
}
use hprof_slurp.Parser.Primitive.{
  unwind, raise, parse_i8, parse_i16, parse_i32, parse_i64, parse_u16, parse_u32, parse_u64,
  parse_f32, parse_f64, parse_u8,
}
use hprof_slurp.Parser.Field.{
  parse_id, parse_field_type, parse_field_value, parse_array_value, skip_array_value,
  parse_const_pool_item, parse_static_field_item, parse_instance_field_item,
}
use hprof_slurp.Parser.GcRecord.{FieldType}

Waits-raise : {A : Type 0} {r : IResult (Option A)} → Waits r → Waits (raise r)
Waits-raise (wait n h) = wait n h

Grows-raise :
    {A : Type 0} {i : List ℕ} {later : Parser (Option A)} {r : IResult (Option A)}
    → Grows i later r
    → Grows i (λ more. raise (later more)) (raise r)
Grows-raise (reads c {a = none} e k) = panics (λ more. rw (k more))
Grows-raise (reads c {a = some a} e k) = reads c e (λ more. rw (k more))
Grows-raise (waits n h k) = waits n h (λ more m. Waits-raise (k more m))
Grows-raise (panics k) = panics (λ more. rw (k more))

pub Streams-unwind : {A : Type 0} {p : Parser (Option A)} → Streams p → Streams (unwind p)
Streams-unwind sp = record { at = λ i. Grows-raise (sp.at i) }

module _ {nom : Nom} (laws : NomLaws nom) where
  pub parse_i8-Streams : Streams (parse_i8 nom)
  unfolding parse_i8
  parse_i8-Streams = search (stream_rules, laws)

  pub parse_i16-Streams : Streams (parse_i16 nom)
  unfolding parse_i16
  parse_i16-Streams = search (stream_rules, laws)

  pub parse_i32-Streams : Streams (parse_i32 nom)
  unfolding parse_i32
  parse_i32-Streams = search (stream_rules, laws)

  pub parse_i64-Streams : Streams (parse_i64 nom)
  unfolding parse_i64
  parse_i64-Streams = search (stream_rules, laws)

  pub parse_u16-Streams : Streams (parse_u16 nom)
  unfolding parse_u16
  parse_u16-Streams = search (stream_rules, laws)

  pub parse_u32-Streams : Streams (parse_u32 nom)
  unfolding parse_u32
  parse_u32-Streams = search (stream_rules, laws)

  pub parse_u64-Streams : Streams (parse_u64 nom)
  unfolding parse_u64
  parse_u64-Streams = search (stream_rules, laws)

  pub parse_f32-Streams : Streams (parse_f32 nom)
  unfolding parse_f32
  parse_f32-Streams = search (stream_rules, laws)

  pub parse_f64-Streams : Streams (parse_f64 nom)
  unfolding parse_f64
  parse_f64-Streams = search (stream_rules, laws)

  pub parse_u8-Streams : Streams (parse_u8 nom)
  unfolding parse_u8
  parse_u8-Streams = search (stream_rules, laws)

pub ruleset number_rules = (
  stream_rules, Streams-unwind, parse_i8-Streams, parse_i16-Streams, parse_i32-Streams,
  parse_i64-Streams, parse_u16-Streams, parse_u32-Streams, parse_u64-Streams, parse_f32-Streams,
  parse_f64-Streams, parse_u8-Streams,
)

module _ {nom : Nom} (laws : NomLaws nom) where
  pub parse_id-Streams : (n : ℕ) → Streams (parse_id nom n)
  unfolding parse_id
  parse_id-Streams n = search (number_rules, laws)

  pub parse_field_type-Streams : Streams (parse_field_type nom)
  unfolding parse_field_type
  parse_field_type-Streams = search (number_rules, laws)

  pub parse_field_value-Streams : (ty : FieldType) (n : ℕ) → Streams (parse_field_value nom ty n)
  unfolding parse_field_value
  parse_field_value-Streams FieldType.object n = search (number_rules, laws, parse_id-Streams)
  parse_field_value-Streams _ n = search (number_rules, laws)

  pub parse_array_value-Streams : (ty : FieldType) (n : ℕ) → Streams (parse_array_value nom ty n)
  unfolding parse_array_value
  parse_array_value-Streams FieldType.object n = search number_rules
  parse_array_value-Streams _ n = search (number_rules, laws)

  pub skip_array_value-Streams : (ty : FieldType) (n : ℕ) → Streams (skip_array_value nom ty n)
  unfolding skip_array_value
  skip_array_value-Streams FieldType.object n = search number_rules
  skip_array_value-Streams _ n = search (number_rules, laws)

  pub parse_const_pool_item-Streams : (n : ℕ) → Streams (parse_const_pool_item nom n)
  unfolding parse_const_pool_item
  parse_const_pool_item-Streams n =
      search (number_rules, laws, parse_field_type-Streams, parse_field_value-Streams)

  pub parse_static_field_item-Streams : (n : ℕ) → Streams (parse_static_field_item nom n)
  unfolding parse_static_field_item
  parse_static_field_item-Streams n =
      search
        (number_rules, laws, parse_id-Streams, parse_field_type-Streams, parse_field_value-Streams)

  pub parse_instance_field_item-Streams : (n : ℕ) → Streams (parse_instance_field_item nom n)
  unfolding parse_instance_field_item
  parse_instance_field_item-Streams n =
      search (number_rules, laws, parse_id-Streams, parse_field_type-Streams)

pub ruleset field_rules = (
  number_rules, parse_id-Streams, parse_field_type-Streams, parse_field_value-Streams,
  parse_array_value-Streams, skip_array_value-Streams, parse_const_pool_item-Streams,
  parse_static_field_item-Streams, parse_instance_field_item-Streams,
)
