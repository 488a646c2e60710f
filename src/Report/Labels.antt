-- ===== src/Report/Labels.antt =====
-- The labels that the memory usage of src/result_recorder.rs shows, spelled out.
use mathlib.Core.Path.{ap₂}
use mathlib.Core.List.{map}
use hprof_slurp.Prelude.{
  ℕ, suc, ◌-◌, ◌<◌, ◌≤◌, ◌≡◌, ◌≢◌, refl, sym, ap, ◌∙◌, ◌⊎◌, inl, inr, true, false, List, [], ◌∷◌,
  ◌++◌, Option, none, some, arith, length, length-append, take-length, get_elem?, get_elem?-length,
  Bool-cases, ==_iff, ◌==◌, if◌then◌else◌, not, leb,
}
use hprof_slurp.Nom.{Bytes}
use hprof_slurp.Text.{text, is_continuation}
use hprof_slurp.Text.Digits.{hex}
use hprof_slurp.Parser.GcRecord.{
  FieldType, object, bool, char, float, double, byte, short, int, long,
}
use hprof_slurp.Recorder.State.{ResultRecorder}
use hprof_slurp.Recorder.Results.{find_class_name}
use hprof_slurp.Report.Names.{
  get_class_name_string, named, type_name, starts_with, is_char_boundary, slice, cleaned_class_name,
}

-- A class's name in the notation of Java, with points for its slashes, or its id where it has none.
abbrev dotted : ℕ → ℕ
dotted b = if b == b'/' then b'.' else b

abbrev pub java_name : ℕ → Option Bytes → Bytes
java_name class_id (some raw) = map dotted raw
java_name class_id none = text "<unknown class 0x" ++ (hex class_id ++ text ">")

pub class_name_lem :
    (s : ResultRecorder) (class_id : ℕ) (ids : List ℕ)
    → (get_class_name_string s class_id ids).0 ≡ java_name class_id (find_class_name s class_id)
unfolding get_class_name_string
class_name_lem s class_id ids = go (find_class_name s class_id)
  where
    go : (o : Option Bytes) → (named class_id ids o).0 ≡ java_name class_id o
    go none = refl
    go (some raw) = refl

abbrev pub primitive_label : FieldType → Bytes
primitive_label object = text "object[]"
primitive_label bool = text "bool[]"
primitive_label char = text "char[]"
primitive_label float = text "float[]"
primitive_label double = text "double[]"
primitive_label byte = text "byte[]"
primitive_label short = text "short[]"
primitive_label int = text "int[]"
primitive_label long = text "long[]"

pub primitive_label_lem : (t : FieldType) → type_name t ++ text "[]" ≡ primitive_label t
primitive_label_lem object = refl
primitive_label_lem bool = refl
primitive_label_lem char = refl
primitive_label_lem float = refl
primitive_label_lem double = refl
primitive_label_lem byte = refl
primitive_label_lem short = refl
primitive_label_lem int = refl
primitive_label_lem long = refl

-- A text whose first byte begins a character.
abbrev pub BeginsChar : Bytes → Type 0
BeginsChar [] = Unit
BeginsChar (b ∷ bs) = (b < 0x80) ⊎ (0xc0 ≤ b)

-- The label of a class of object arrays: its elements' class in brackets of Java's source, whether
-- the array has one dimension or two, or all of the name where it is written otherwise.
pub data Labelled : Bytes → Bytes → Type 0 where
  two_dimensions :
      (inner : Bytes)
      → BeginsChar inner
      → Labelled (b'[' ∷ b'[' ∷ b'L' ∷ (inner ++ b';' ∷ [])) (inner ++ text "[]")
  one_dimension :
      (inner : Bytes)
      → BeginsChar inner
      → Labelled (b'[' ∷ b'L' ∷ (inner ++ b';' ∷ [])) (inner ++ text "[]")
  as_it_is :
      (name : Bytes)
      → ((rest : Bytes) → name ≢ b'[' ∷ b'[' ∷ b'L' ∷ rest)
      → ((rest : Bytes) → name ≢ b'[' ∷ b'L' ∷ rest)
      → Labelled name (name ++ text "[]")

starts_with_split : (p s : Bytes) → starts_with p s ≡ true → (rest : Bytes) × (s ≡ p ++ rest)
starts_with_split [] s h = (s, refl)
starts_with_split (c ∷ cs) [] h = absurd (ground arith)
starts_with_split (c ∷ cs) (b ∷ bs) h =
    let (rest, e) = starts_with_split cs bs (ground (arith, h)) in
    (rest, ap₂ ◌∷◌ (sym ((==_iff c b).0 (ground (arith, h)))) e)

not_started : (p s : Bytes) → ((rest : Bytes) → s ≢ p ++ rest) → starts_with p s ≡ false
not_started p s h = elim (Bool-cases (starts_with p s)) [
  | inl e ↦ let (rest, k) = starts_with_split p s e in absurd (h rest k)
  | inr e ↦ e
]

begins_boundary :
    (inner : Bytes) → BeginsChar inner → is_char_boundary (inner ++ b';' ∷ []) 0 ≡ true
begins_boundary [] h = refl
begins_boundary (b ∷ bs) (inl h) = ground arith
begins_boundary (b ∷ bs) (inr h) = ground arith

ends_boundary : (inner : Bytes) → is_char_boundary (inner ++ b';' ∷ []) (length inner) ≡ true
ends_boundary inner = rw (is_char_boundary, get_elem?-length inner b';') refl

last_byte : (inner : Bytes) → length (inner ++ b';' ∷ []) ≡ suc (length inner)
last_byte inner = omega (arith, length-append inner (b';' ∷ []))

-- A byte in front moves the places of a cut by one.
is_char_boundary-suc :
    (c : ℕ) (s : Bytes) (i : ℕ) → is_char_boundary (c ∷ s) (suc i) ≡ is_char_boundary s i
is_char_boundary-suc c s i = go (get_elem? s i)
  where
    go :
        (o : Option ℕ)
        → elim o [ none ↦ suc i == suc (length s) | some b ↦ not (is_continuation b) ]
          ≡ elim o [ none ↦ i == length s | some b ↦ not (is_continuation b) ]
    go none = ground arith
    go (some b) = refl

slice-suc : (c : ℕ) (s : Bytes) (i j : ℕ) → slice (c ∷ s) (suc i) (suc j) ≡ slice s i j
slice-suc c s i j =
    let shift : leb (suc i) (suc j) ≡ leb i j = ground arith in
    rw (slice, shift, is_char_boundary-suc c s i, is_char_boundary-suc c s j) refl

slice-inner :
    (inner : Bytes) → BeginsChar inner → slice (inner ++ b';' ∷ []) 0 (length inner) ≡ some inner
slice-inner inner h =
    let starts : leb 0 (length inner) ≡ true = ground arith in
    rw (slice, starts, begins_boundary inner h, ends_boundary inner)
      (ap some (take-length inner (b';' ∷ [])))

cleaned-two_dimensions :
    (inner : Bytes)
    → BeginsChar inner
    → cleaned_class_name (b'[' ∷ b'[' ∷ b'L' ∷ (inner ++ b';' ∷ [])) ≡ some inner
unfolding cleaned_class_name
cleaned-two_dimensions inner h =
    let s = inner ++ b';' ∷ [] in
    let n = length inner in
    let end : suc (suc (suc (length s))) - 1 ≡ suc (suc (suc n)) = omega (arith, last_byte inner) in
    ap (slice (b'[' ∷ b'[' ∷ b'L' ∷ s) 3) end
    ∙ slice-suc b'[' (b'[' ∷ b'L' ∷ s) 2 (suc (suc n))
    ∙ slice-suc b'[' (b'L' ∷ s) 1 (suc n)
    ∙ slice-suc b'L' s 0 n
    ∙ slice-inner inner h

cleaned-one_dimension :
    (inner : Bytes)
    → BeginsChar inner
    → cleaned_class_name (b'[' ∷ b'L' ∷ (inner ++ b';' ∷ [])) ≡ some inner
unfolding cleaned_class_name
cleaned-one_dimension inner h =
    let s = inner ++ b';' ∷ [] in
    let n = length inner in
    let end : suc (suc (length s)) - 1 ≡ suc (suc n) = omega (arith, last_byte inner) in
    ap (slice (b'[' ∷ b'L' ∷ s) 2) end
    ∙ slice-suc b'[' (b'L' ∷ s) 1 (suc n)
    ∙ slice-suc b'L' s 0 n
    ∙ slice-inner inner h

-- What is cut off and added makes the label.
pub Labelled-cleaned :
    (name label : Bytes)
    → Labelled name label
    → (cut : Bytes) × (cleaned_class_name name ≡ some cut) × (cut ++ text "[]" ≡ label)
unfolding cleaned_class_name
Labelled-cleaned name label (two_dimensions inner h) = (inner, cleaned-two_dimensions inner h, refl)
Labelled-cleaned name label (one_dimension inner h) = (inner, cleaned-one_dimension inner h, refl)
Labelled-cleaned name label (as_it_is _ h k) = (
  name,
  rw (not_started (b'[' ∷ b'[' ∷ b'L' ∷ []) name h, not_started (b'[' ∷ b'L' ∷ []) name k) refl,
  refl,
)
