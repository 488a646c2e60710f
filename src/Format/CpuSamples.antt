-- ===== src/Format/CpuSamples.antt =====
-- `parse_cpu_samples` of src/parser/record_parser.rs on what the format lays down for CPU samples.
use hprof_slurp.Prelude.{ℕ, zero, suc, ◌≡◌, ◌↔◌, sym, ap, subst, ◌∙◌, List, [], ◌∷◌, ◌++◌, length}
use hprof_slurp.Nom.{Nom, NomLaws, Bytes, Parser, ok, repeat}
use hprof_slurp.Nom.Reads.{Reads, Fits}
use hprof_slurp.Parser.Record.{CpuSample, Record, cpu_samples}
use hprof_slurp.Parser.Body.{parse_cpu_sample, parse_cpu_samples}
use hprof_slurp.Parser.Streaming.Takes.{and_then-eq_ok}
use hprof_slurp.Parser.Dispatch.{parse_body}
use hprof_slurp.Format.Fields.{IsIdSize}
use hprof_slurp.Format.Top.{TopFits, write_body, write_header}
use hprof_slurp.Format.Bodies.{Reads-body}

-- What comes out of a parser's repetition has as many elements as it was repeated.
length-repeat :
    {A : Type 0} (p : Parser A) (n : ℕ) (i rest : Bytes) (l : List A)
    → repeat p n i ≡ ok rest l
    → length l ≡ n
length-repeat p zero i rest l q = ap length (value_of q)
  where
    value_of : ok i [] ≡ ok rest l → l ≡ []
    value_of q = cc
length-repeat {A} p (suc n) i rest l q =
    let (r1, a, e, q1) = and_then-eq_ok (p i) _ q in
    let (r2, items, f, q2) = and_then-eq_ok (repeat p n r1) _ q1 in
    ap length (value_of a items q2) ∙ ap suc (length-repeat p n r1 r2 items f)
  where
    value_of : {r2 : Bytes} (a : A) (items : List A) → ok r2 (a ∷ items) ≡ ok rest l → l ≡ a ∷ items
    value_of a items q = cc

-- CPU samples that are as many as their total number of samples says.
abbrev LengthIsTotal : Record → Type 0
LengthIsTotal (cpu_samples total traces samples) = length samples ≡ total
LengthIsTotal r = Unit

-- What comes out of a parser that is applied to the result of another one.
module _ {nom : Nom} (laws : NomLaws nom) {A B : Type 0} (p : Parser A) {i rest : Bytes}
    {b : B} where
  map-eq_ok :
      (f : A → B) → nom.map p f i ≡ ok rest b → (r : Bytes) × (a : A) × (p i ≡ ok r a) × (b ≡ f a)
  map-eq_ok f q =
      let (r, a, e, k) =
        and_then-eq_ok (p i) (λ a j. ok j (f a)) (sym (ap (λ g. g i) (laws.map_lem p f)) ∙ q) in
      (r, a, e, value_of k)
    where
      value_of : {r : Bytes} {c : B} → ok r c ≡ ok rest b → b ≡ c
      value_of k = cc

  flat_map-eq_ok :
      (f : A → Parser B)
      → nom.flat_map p f i ≡ ok rest b
      → (r : Bytes) × (a : A) × (p i ≡ ok r a) × (f a r ≡ ok rest b)
  flat_map-eq_ok f q = and_then-eq_ok (p i) f (sym (ap (λ g. g i) (laws.flat_map_lem p f)) ∙ q)

parse_cpu_samples-LengthIsTotal :
    {nom : Nom} (laws : NomLaws nom) (i rest : Bytes) (r : Record)
    → parse_cpu_samples nom i ≡ ok rest r
    → LengthIsTotal r
unfolding parse_cpu_samples
parse_cpu_samples-LengthIsTotal {nom} laws i rest r q =
    let (r1, (total, traces), e, q1) = flat_map-eq_ok laws _ _ q in
    let (r2, samples, f, k) = map-eq_ok laws _ _ q1 in
    let repeated = sym (ap (λ g. g r1) (laws.count_lem (parse_cpu_sample nom) total)) ∙ f in
    subst LengthIsTotal (sym k) (length-repeat (parse_cpu_sample nom) total r1 r2 samples repeated)

module _ {nom : Nom} (laws : NomLaws nom) (n : ℕ) (s : IsIdSize n) (timestamp : ℕ)
    (ht : Fits 4 timestamp) where
  -- For an id size of 4 or 8, CPU samples that are as many as their number of traces, as the format
  -- has them, are read off a header with a timestamp of 4 bytes and the body that the format lays
  -- down for them, where the body's length fits the header, exactly if their total number of samples
  -- is the number of their traces.
  pub Reads-cpu_samples_iff :
      (total traces : ℕ) (samples : List CpuSample)
      → TopFits n (cpu_samples total traces samples) []
      → Fits 4 (length (write_body n (cpu_samples total traces samples) []))
      → Reads
          (parse_body nom n 0x0d)
          (write_header timestamp (length (write_body n (cpu_samples total traces samples) []))
            ++ write_body n (cpu_samples total traces samples) [])
          (cpu_samples total traces samples)
        ↔ (total ≡ traces)
  unfolding parse_body parse_cpu_samples
  Reads-cpu_samples_iff total traces samples h hl = (
    λ reads.
        sym (
          parse_cpu_samples-LengthIsTotal laws _ [] (cpu_samples total traces samples)
            (reads.at []))
        ∙ h.2,
    λ e. Reads-body laws n s timestamp ht (cpu_samples total traces samples) [] h hl e,
  )
