-- ===== src/Nom/Streams.antt =====
-- What a parser over a stream promises: more input changes neither what it has read nor a panic, it
-- takes a front of its input, and a wait for `n` bytes lasts until `n` bytes have come.
use hprof_slurp.Prelude.{
  ℕ, zero, suc, ◌-◌, ◌<◌, ◌≡◌, refl, sym, Bool, true, false, [], ◌∷◌, ◌++◌, length, take,
  length-append, take-append-drop, take-append, drop-append, append_assoc, arith, leb, le→leb,
  lt→leb, if◌then◌else◌, Bool-cases, inl, inr, leb→le,
}
use hprof_slurp.Nom.{
  Nom, NomLaws, Bytes, Parser, IResult, ok, incomplete, panicked, size, ◌and_then◌, map_ok,
  take_bytes, be_uint, be_value, repeat, seq,
}

pub data Waits {A : Type 0} : IResult A → Type 0 where
  wait : (n : ℕ) → 0 < n → Waits (incomplete (size n))

-- `r` is the result on `i`, and `later more` that on `i ++ more`.
pub data Grows {A : Type 0} (i : Bytes) (later : Parser A) : IResult A → Type 0 where
  reads :
      (c : Bytes) {r : Bytes} {a : A}
      → i ≡ c ++ r
      → ((more : Bytes) → later more ≡ ok (r ++ more) a)
      → Grows i later (ok r a)
  waits :
      (n : ℕ)
      → 0 < n
      → ((more : Bytes) → length more < n → Waits (later more))
      → Grows i later (incomplete (size n))
  panics : ((more : Bytes) → later more ≡ panicked) → Grows i later panicked

pub record Streams {A : Type 0} (p : Parser A) : Type 0 where
  pub at : (i : Bytes) → Grows i (λ more. p (i ++ more)) (p i)

module _ {A : Type 0} where
  pub Streams-ok : (a : A) → Streams (λ i. ok i a)
  Streams-ok a = record { at = λ i. reads [] refl (λ more. refl) }

  pub Streams-panicked : Streams {A = A} (λ i. panicked)
  Streams-panicked = record { at = λ i. panics (λ more. refl) }

  pub Streams-if :
      (b : Bool) {p q : Parser A} → Streams p → Streams q → Streams (if b then p else q)
  Streams-if true sp sq = sp
  Streams-if false sp sq = sq

module _ {A B : Type 0} (f : A → Parser B) where
  pub Waits-on : {r : IResult A} → Waits r → Waits (r and_then f)
  Waits-on (wait n h) = wait n h

  Grows-and_then :
      (i : Bytes) (later : Parser A) (r : IResult A)
      → Grows i later r
      → ((a : A) → Streams (f a))
      → Grows i (λ more. later more and_then f) (r and_then f)
  Grows-and_then i later r (waits n h k) sf = waits n h (λ more m. Waits-on (k more m))
  Grows-and_then i later r (panics k) sf = panics (λ more. rw (k more))
  Grows-and_then i later r (reads c {r = rest} {a = a} e k) sf = go (f a rest) ((sf a).at rest)
    where
      go :
          (x : IResult B)
          → Grows rest (λ more. f a (rest ++ more)) x
          → Grows i (λ more. later more and_then f) x
      go x (reads c' e' k') =
          reads (c ++ c') (rw (e, e', append_assoc)) (λ more. rw (k more, k' more))
      go x (waits n h k') = waits n h (λ more m. rw (k more) (k' more m))
      go x (panics k') = panics (λ more. rw (k more, k' more))

pub Streams-seq :
    {A B : Type 0} {p : Parser A} {f : A → Parser B}
    → Streams p
    → ((a : A) → Streams (f a))
    → Streams (seq p f)
Streams-seq {p} {f} sp sf = record {
  at = λ i. Grows-and_then f i (λ more. p (i ++ more)) (p i) (sp.at i) sf;
}

take_bytes-Streams : (n : ℕ) → Streams (take_bytes n)
take_bytes-Streams n = record {
  at = λ i. elim (Bool-cases (leb n (length i))) [
    | inl enough ↦
        let h = leb→le n (length i) enough in
        rw enough (
          reads (take n i) (sym (take-append-drop n i)) λ more.
            rw (le→leb n (length (i ++ more)) (omega (arith, length-append i more)))
              (rw (drop-append n i more h, take-append n i more h)))
    | inr short ↦
        let h : length i < n = ground arith in
        rw short (
          waits (n - length i) (omega arith) λ more m.
            rw (lt→leb n (length (i ++ more)) (omega (arith, length-append i more)))
              (wait _ (omega (arith, length-append i more))))
  ];
}

map_ok-Streams :
    {A B : Type 0} {p : Parser A} (f : A → B) → Streams p → Streams (λ i. map_ok f (p i))
map_ok-Streams f sp = Streams-seq sp (λ a. Streams-ok (f a))

be_uint-Streams : (n : ℕ) → Streams (be_uint n)
be_uint-Streams n = map_ok-Streams (be_value 0) (take_bytes-Streams n)

repeat-Streams : {A : Type 0} {p : Parser A} (n : ℕ) → Streams p → Streams (repeat p n)
repeat-Streams zero sp = Streams-ok []
repeat-Streams (suc n) sp =
    Streams-seq sp λ a. Streams-seq (repeat-Streams n sp) λ rest. Streams-ok (a ∷ rest)

module _ {nom : Nom} (laws : NomLaws nom) where
  pub Streams-be_u8 : Streams nom.be_u8
  Streams-be_u8 = rw laws.be_u8_lem (be_uint-Streams 1)

  pub Streams-be_u16 : Streams nom.be_u16
  Streams-be_u16 = rw laws.be_u16_lem (be_uint-Streams 2)

  pub Streams-be_u32 : Streams nom.be_u32
  Streams-be_u32 = rw laws.be_u32_lem (be_uint-Streams 4)

  pub Streams-be_u64 : Streams nom.be_u64
  Streams-be_u64 = rw laws.be_u64_lem (be_uint-Streams 8)

  pub Streams-be_i8 : Streams nom.be_i8
  Streams-be_i8 = rw laws.be_i8_lem (map_ok-Streams _ (be_uint-Streams 1))

  pub Streams-be_i16 : Streams nom.be_i16
  Streams-be_i16 = rw laws.be_i16_lem (map_ok-Streams _ (be_uint-Streams 2))

  pub Streams-be_i32 : Streams nom.be_i32
  Streams-be_i32 = rw laws.be_i32_lem (map_ok-Streams _ (be_uint-Streams 4))

  pub Streams-be_i64 : Streams nom.be_i64
  Streams-be_i64 = rw laws.be_i64_lem (map_ok-Streams _ (be_uint-Streams 8))

  pub Streams-be_f32 : Streams nom.be_f32
  Streams-be_f32 = rw laws.be_f32_lem (be_uint-Streams 4)

  pub Streams-be_f64 : Streams nom.be_f64
  Streams-be_f64 = rw laws.be_f64_lem (be_uint-Streams 8)

  pub Streams-take : (n : ℕ) → Streams (nom.take n)
  Streams-take n = rw (laws.take_lem n) (take_bytes-Streams n)

  pub Streams-map : {A B : Type 0} {p : Parser A} {f : A → B} → Streams p → Streams (nom.map p f)
  Streams-map {p} {f} sp = rw (laws.map_lem p f) (Streams-seq sp λ a. Streams-ok (f a))

  pub Streams-flat_map :
      {A B : Type 0} {p : Parser A} {f : A → Parser B}
      → Streams p
      → ((a : A) → Streams (f a))
      → Streams (nom.flat_map p f)
  Streams-flat_map {p} {f} sp sf = rw (laws.flat_map_lem p f) (Streams-seq sp sf)

  pub Streams-count : {A : Type 0} {p : Parser A} {n : ℕ} → Streams p → Streams (nom.count p n)
  Streams-count {p} {n} sp = rw (laws.count_lem p n) (repeat-Streams n sp)

  pub Streams-preceded :
      {A B : Type 0} {p : Parser A} {q : Parser B}
      → Streams p
      → Streams q
      → Streams (nom.preceded p q)
  Streams-preceded {p} {q} sp sq = rw (laws.preceded_lem p q) (Streams-seq sp λ _. sq)

  pub Streams-tuple2 :
      {A B : Type 0} {p : Parser A} {q : Parser B}
      → Streams p
      → Streams q
      → Streams (nom.tuple2 p q)
  Streams-tuple2 {p} {q} sp sq =
      rw (laws.tuple2_lem p q) (Streams-seq sp λ a. Streams-seq sq λ b. Streams-ok (a, b))

  pub Streams-tuple3 :
      {A B C : Type 0} {p : Parser A} {q : Parser B} {r : Parser C}
      → Streams p
      → Streams q
      → Streams r
      → Streams (nom.tuple3 p q r)
  Streams-tuple3 {p} {q} {r} sp sq sr =
      rw (laws.tuple3_lem p q r)
        (Streams-seq sp λ a. Streams-seq sq λ b. Streams-seq sr λ c. Streams-ok (a, b, c))

  pub Streams-tuple4 :
      {A B C D : Type 0} {p : Parser A} {q : Parser B} {r : Parser C} {s : Parser D}
      → Streams p
      → Streams q
      → Streams r
      → Streams s
      → Streams (nom.tuple4 p q r s)
  Streams-tuple4 {p} {q} {r} {s} sp sq sr ss = rw (laws.tuple4_lem p q r s) (
      Streams-seq sp
        λ a. Streams-seq sq λ b. Streams-seq sr λ c. Streams-seq ss λ d. Streams-ok (a, b, c, d))

  pub Streams-tuple6 :
      {A B C D E F : Type 0} {p : Parser A} {q : Parser B} {r : Parser C} {s : Parser D}
      {t : Parser E} {u : Parser F}
      → Streams p
      → Streams q
      → Streams r
      → Streams s
      → Streams t
      → Streams u
      → Streams (nom.tuple6 p q r s t u)
  Streams-tuple6 {p} {q} {r} {s} {t} {u} sp sq sr ss st su = rw (laws.tuple6_lem p q r s t u) (
      Streams-seq sp λ a. Streams-seq sq λ b. Streams-seq sr λ c.
        Streams-seq ss λ d. Streams-seq st λ e. Streams-seq su λ f. Streams-ok (a, b, c, d, e, f))

  pub Streams-tuple7 :
      {A B C D E F G : Type 0} {p : Parser A} {q : Parser B} {r : Parser C} {s : Parser D}
      {t : Parser E} {u : Parser F} {v : Parser G}
      → Streams p
      → Streams q
      → Streams r
      → Streams s
      → Streams t
      → Streams u
      → Streams v
      → Streams (nom.tuple7 p q r s t u v)
  Streams-tuple7 {p} {q} {r} {s} {t} {u} {v} sp sq sr ss st su sv =
      rw (laws.tuple7_lem p q r s t u v) (
        Streams-seq sp λ a. Streams-seq sq λ b. Streams-seq sr λ c. Streams-seq ss λ d.
          Streams-seq st
            λ e. Streams-seq su λ f. Streams-seq sv λ g. Streams-ok (a, b, c, d, e, f, g))

  pub Streams-tuple10 :
      {A B C D E F G H I J : Type 0} {p : Parser A} {q : Parser B} {r : Parser C} {s : Parser D}
      {t : Parser E} {u : Parser F} {v : Parser G} {w : Parser H} {x : Parser I} {y : Parser J}
      → Streams p
      → Streams q
      → Streams r
      → Streams s
      → Streams t
      → Streams u
      → Streams v
      → Streams w
      → Streams x
      → Streams y
      → Streams (nom.tuple10 p q r s t u v w x y)
  Streams-tuple10 {p} {q} {r} {s} {t} {u} {v} {w} {x} {y} sp sq sr ss st su sv sw sx sy =
      rw (laws.tuple10_lem p q r s t u v w x y) (
        Streams-seq sp λ a. Streams-seq sq λ b. Streams-seq sr λ c. Streams-seq ss λ d.
          Streams-seq st λ e. Streams-seq su λ f. Streams-seq sv λ g.
            Streams-seq sw λ h.
              Streams-seq sx λ k. Streams-seq sy λ l. Streams-ok (a, b, c, d, e, f, g, h, k, l))

pub ruleset stream_rules = (
  Streams-ok, Streams-panicked, Streams-if, Streams-be_u8, Streams-be_u16, Streams-be_u32,
  Streams-be_u64, Streams-be_i8, Streams-be_i16, Streams-be_i32, Streams-be_i64, Streams-be_f32,
  Streams-be_f64, Streams-take, Streams-map, Streams-flat_map, Streams-count, Streams-preceded,
  Streams-tuple2, Streams-tuple3, Streams-tuple4, Streams-tuple6, Streams-tuple7, Streams-tuple10,
)
