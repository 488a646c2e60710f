-- ===== src/Nom/Reads.antt =====
-- A parser reads a value off the bytes that were written for it, whatever follows them.
pub mod Combinators
use mathlib.Core.List
use native.Mathlib.Nat.{pow-suc}
use hprof_slurp.Prelude.{
  ℕ, zero, suc, ◌+◌, ◌*◌, ◌-◌, ◌/◌, ◌%◌, ◌^◌, ◌<◌, ◌≤◌, ◌≡◌, refl, sym, ap, ◌∙◌, List, [], ◌∷◌,
  ◌++◌, append_assoc, append-nil, length, length-append, take, drop, take-length, drop-length, leb,
  le→leb, arith, Option, some, ℤ, pos, negsuc, signed, ltb, if◌then◌else◌, All,
}
use hprof_slurp.Nom.{
  Nom, NomLaws, Bytes, Parser, IResult, ok, seq, ◌and_then◌, map_ok, take_bytes, be_value, be_uint,
  repeat,
}

pub record Reads {A : Type 0} (p : Parser A) (bs : Bytes) (a : A) : Type 0 where
  pub at : (rest : Bytes) → p (bs ++ rest) ≡ ok rest a

-- `k` bytes in big-endian order.
abbrev pub be_bytes : ℕ → ℕ → Bytes
be_bytes zero v = []
be_bytes (suc k) v = be_bytes k (v / 256) ++ (v % 256) ∷ []

pub length-be_bytes : (k v : ℕ) → length (be_bytes k v) ≡ k
length-be_bytes zero v = refl
length-be_bytes (suc k) v =
    omega
      (arith, length-append (be_bytes k (v / 256)) ((v % 256) ∷ []), length-be_bytes k (v / 256))

be_value-append :
    (acc : ℕ) (bs cs : Bytes) → be_value acc (bs ++ cs) ≡ be_value (be_value acc bs) cs
be_value-append acc [] cs = refl
be_value-append acc (b ∷ bs) cs = be_value-append (acc * 256 + b) bs cs

abbrev pub Fits : ℕ → ℕ → Type 0
Fits k v = v < 256 ^ k

be_value-be_bytes : (k v : ℕ) → Fits k v → be_value 0 (be_bytes k v) ≡ v
be_value-be_bytes zero v h = omega arith
be_value-be_bytes (suc k) v h =
    be_value-append 0 (be_bytes k (v / 256)) ((v % 256) ∷ [])
    ∙ omega (arith, be_value-be_bytes k (v / 256) (omega (arith, h, pow-suc 256 k)))

module _ {A : Type 0} where
  pub Reads-ok : (a : A) → Reads (λ i. ok i a) [] a
  Reads-ok a = record { at = λ rest. refl }

pub Reads-seq :
    {A B : Type 0} {p : Parser A} (f : A → Parser B) {bs cs : Bytes} {a : A} {b : B}
    → Reads p bs a
    → Reads (f a) cs b
    → Reads (seq p f) (bs ++ cs) b
Reads-seq f rp rf = record { at = λ rest. rw (append_assoc, rp.at, rf.at) }

take_bytes-Reads : (bs : Bytes) → Reads (take_bytes (length bs)) bs bs
take_bytes-Reads bs = record {
  at = λ rest.
      rw (le→leb (length bs) (length (bs ++ rest)) (omega (arith, length-append bs rest)))
        (rw (drop-length, take-length));
}

pub map_ok-Reads :
    {A B : Type 0} {p : Parser A} (f : A → B) {bs : Bytes} {a : A}
    → Reads p bs a
    → Reads (λ i. map_ok f (p i)) bs (f a)
map_ok-Reads f rp = record { at = λ rest. rw rp.at }

be_uint-Reads : (k v : ℕ) → Fits k v → Reads (be_uint k) (be_bytes k v) v
be_uint-Reads k v h =
    rw (length-be_bytes, be_value-be_bytes k v h) at
      (map_ok-Reads (be_value 0) (take_bytes-Reads (be_bytes k v)))

-- The bit pattern of a signed `w`-bit number.
abbrev pub pattern_of : ℕ → ℤ → ℕ
pattern_of w (pos v) = v
pattern_of w (negsuc v) = 2 ^ w - v - 1

abbrev pub FitsSigned : ℕ → ℤ → Type 0
FitsSigned w (pos v) = v < 2 ^ (w - 1)
FitsSigned w (negsuc v) = v < 2 ^ (w - 1)

-- All of `items`, one behind the other.
abbrev pub write_all : {A : Type 0} → (A → Bytes) → List A → Bytes
write_all write [] = []
write_all write (a ∷ items) = write a ++ write_all write items

repeat-Reads :
    {A : Type 0} {p : Parser A} {P : A → Type 0} (write : A → Bytes)
    → ((a : A) → P a → Reads p (write a) a)
    → (items : List A) → All P items
    → Reads (repeat p (length items)) (write_all write items) items
repeat-Reads write rp [] h = Reads-ok []
repeat-Reads write rp (a ∷ items) h = record {
  at = λ rest. rw (append_assoc, (rp a h.0).at, (repeat-Reads write rp items h.1).at);
}

module _ {nom : Nom} (laws : NomLaws nom) where
  pub Reads-be_u8 : (v : ℕ) → v < 256 → Reads nom.be_u8 (v ∷ []) v
  Reads-be_u8 v h = rw laws.be_u8_lem (record {
    at = λ rest. rw (le→leb 1 (suc (length rest)) (omega arith)) (ap (ok rest) (omega arith));
  })

  pub Reads-be_u16 : (v : ℕ) → Fits 2 v → Reads nom.be_u16 (be_bytes 2 v) v
  Reads-be_u16 v h = rw laws.be_u16_lem (be_uint-Reads 2 v h)

  pub Reads-be_u32 : (v : ℕ) → Fits 4 v → Reads nom.be_u32 (be_bytes 4 v) v
  Reads-be_u32 v h = rw laws.be_u32_lem (be_uint-Reads 4 v h)

  pub Reads-be_u64 : (v : ℕ) → Fits 8 v → Reads nom.be_u64 (be_bytes 8 v) v
  Reads-be_u64 v h = rw laws.be_u64_lem (be_uint-Reads 8 v h)

  pub Reads-take : {n : ℕ} (bs : Bytes) → length bs ≡ n → Reads (nom.take n) bs bs
  Reads-take bs e = rw (sym e) (rw (laws.take_lem (length bs)) (take_bytes-Reads bs))

  pub Reads-map :
      {A B : Type 0} {p : Parser A} {f : A → B} {bs : Bytes} {a : A}
      → Reads p bs a
      → Reads (nom.map p f) bs (f a)
  Reads-map {p} {f} rp = rw (laws.map_lem p f) (map_ok-Reads f rp)
