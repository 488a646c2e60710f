-- ===== src/Nom/Reads/Combinators.antt =====
-- Values in a row, read by nom's combinators.
use hprof_slurp.Prelude.{
  ℕ, ◌≡◌, sym, List, ◌++◌, append_assoc, length, ℤ, pos, negsuc, signed, All, arith,
}
use hprof_slurp.Nom.{Nom, NomLaws, Bytes, Parser}
use hprof_slurp.Nom.Reads.{
  Reads, Reads-seq, be_bytes, Fits, be_uint-Reads, map_ok-Reads, pattern_of, FitsSigned, write_all,
  repeat-Reads,
}

-- The pattern of a number that fits, read as a signed number.
signed-pattern_of_8 : (z : ℤ) → FitsSigned 8 z → signed 8 (pattern_of 8 z) ≡ z
signed-pattern_of_8 (pos v) h = ground arith
signed-pattern_of_8 (negsuc v) h = ground arith

signed-pattern_of_16 : (z : ℤ) → FitsSigned 16 z → signed 16 (pattern_of 16 z) ≡ z
signed-pattern_of_16 (pos v) h = ground arith
signed-pattern_of_16 (negsuc v) h = ground arith

signed-pattern_of_32 : (z : ℤ) → FitsSigned 32 z → signed 32 (pattern_of 32 z) ≡ z
signed-pattern_of_32 (pos v) h = ground arith
signed-pattern_of_32 (negsuc v) h = ground arith

signed-pattern_of_64 : (z : ℤ) → FitsSigned 64 z → signed 64 (pattern_of 64 z) ≡ z
signed-pattern_of_64 (pos v) h = ground arith
signed-pattern_of_64 (negsuc v) h = ground arith

Fits-pattern_of_8 : (z : ℤ) → FitsSigned 8 z → Fits 1 (pattern_of 8 z)
Fits-pattern_of_8 (pos v) h = omega arith
Fits-pattern_of_8 (negsuc v) h = omega arith

Fits-pattern_of_16 : (z : ℤ) → FitsSigned 16 z → Fits 2 (pattern_of 16 z)
Fits-pattern_of_16 (pos v) h = omega arith
Fits-pattern_of_16 (negsuc v) h = omega arith

Fits-pattern_of_32 : (z : ℤ) → FitsSigned 32 z → Fits 4 (pattern_of 32 z)
Fits-pattern_of_32 (pos v) h = omega arith
Fits-pattern_of_32 (negsuc v) h = omega arith

Fits-pattern_of_64 : (z : ℤ) → FitsSigned 64 z → Fits 8 (pattern_of 64 z)
Fits-pattern_of_64 (pos v) h = omega arith
Fits-pattern_of_64 (negsuc v) h = omega arith

module _ {nom : Nom} (laws : NomLaws nom) where
  pub Reads-be_i8 : (z : ℤ) → FitsSigned 8 z → Reads nom.be_i8 (be_bytes 1 (pattern_of 8 z)) z
  Reads-be_i8 z h = rw laws.be_i8_lem (
      rw (signed-pattern_of_8 z h) at
        (map_ok-Reads (signed 8) (be_uint-Reads 1 (pattern_of 8 z) (Fits-pattern_of_8 z h))))

  pub Reads-be_i16 : (z : ℤ) → FitsSigned 16 z → Reads nom.be_i16 (be_bytes 2 (pattern_of 16 z)) z
  Reads-be_i16 z h = rw laws.be_i16_lem (
      rw (signed-pattern_of_16 z h) at
        (map_ok-Reads (signed 16) (be_uint-Reads 2 (pattern_of 16 z) (Fits-pattern_of_16 z h))))

  pub Reads-be_i32 : (z : ℤ) → FitsSigned 32 z → Reads nom.be_i32 (be_bytes 4 (pattern_of 32 z)) z
  Reads-be_i32 z h = rw laws.be_i32_lem (
      rw (signed-pattern_of_32 z h) at
        (map_ok-Reads (signed 32) (be_uint-Reads 4 (pattern_of 32 z) (Fits-pattern_of_32 z h))))

  pub Reads-be_i64 : (z : ℤ) → FitsSigned 64 z → Reads nom.be_i64 (be_bytes 8 (pattern_of 64 z)) z
  Reads-be_i64 z h = rw laws.be_i64_lem (
      rw (signed-pattern_of_64 z h) at
        (map_ok-Reads (signed 64) (be_uint-Reads 8 (pattern_of 64 z) (Fits-pattern_of_64 z h))))

  pub Reads-be_f32 : (v : ℕ) → Fits 4 v → Reads nom.be_f32 (be_bytes 4 v) v
  Reads-be_f32 v h = rw laws.be_f32_lem (be_uint-Reads 4 v h)

  pub Reads-be_f64 : (v : ℕ) → Fits 8 v → Reads nom.be_f64 (be_bytes 8 v) v
  Reads-be_f64 v h = rw laws.be_f64_lem (be_uint-Reads 8 v h)

  pub Reads-flat_map :
      {A B : Type 0} {p : Parser A} {f : A → Parser B} {bs cs : Bytes} {a : A} {b : B}
      → Reads p bs a
      → Reads (f a) cs b
      → Reads (nom.flat_map p f) (bs ++ cs) b
  Reads-flat_map {p} {f} rp rf = rw (laws.flat_map_lem p f) (Reads-seq f rp rf)

  pub Reads-preceded :
      {A B : Type 0} {p : Parser A} {q : Parser B} {bs cs : Bytes} {a : A} {b : B}
      → Reads p bs a
      → Reads q cs b
      → Reads (nom.preceded p q) (bs ++ cs) b
  Reads-preceded {p} {q} rp rq = rw (laws.preceded_lem p q) (Reads-seq (λ _. q) rp rq)

  pub Reads-count :
      {A : Type 0} {p : Parser A} {P : A → Type 0} {k : ℕ} (write : A → Bytes)
      → ((a : A) → P a → Reads p (write a) a)
      → (items : List A) → length items ≡ k
      → All P items
      → Reads (nom.count p k) (write_all write items) items
  Reads-count {p} write rp items e h =
      rw (sym e) (rw (laws.count_lem p (length items)) (repeat-Reads write rp items h))

  pub Reads-tuple2 :
      {A B : Type 0} {p : Parser A} {q : Parser B} {b0 b1 : Bytes} {a0 : A} {a1 : B}
      → Reads p b0 a0
      → Reads q b1 a1
      → Reads (nom.tuple2 p q) (b0 ++ b1) (a0, a1)
  Reads-tuple2 {p} {q} r0 r1 =
      rw (laws.tuple2_lem p q) (record { at = λ rest. simp (append_assoc, r0.at, r1.at) })

  pub Reads-tuple3 :
      {A B C : Type 0} {p : Parser A} {q : Parser B} {r : Parser C} {b0 b1 b2 : Bytes} {a0 : A}
      {a1 : B} {a2 : C}
      → Reads p b0 a0
      → Reads q b1 a1
      → Reads r b2 a2
      → Reads (nom.tuple3 p q r) (b0 ++ (b1 ++ b2)) (a0, a1, a2)
  Reads-tuple3 {p} {q} {r} r0 r1 r2 =
      rw (laws.tuple3_lem p q r) (record { at = λ rest. simp (append_assoc, r0.at, r1.at, r2.at) })

  pub Reads-tuple4 :
      {A B C D : Type 0} {p : Parser A} {q : Parser B} {r : Parser C} {s : Parser D}
      {b0 b1 b2 b3 : Bytes} {a0 : A} {a1 : B} {a2 : C} {a3 : D}
      → Reads p b0 a0
      → Reads q b1 a1
      → Reads r b2 a2
      → Reads s b3 a3
      → Reads (nom.tuple4 p q r s) (b0 ++ (b1 ++ (b2 ++ b3))) (a0, a1, a2, a3)
  Reads-tuple4 {p} {q} {r} {s} r0 r1 r2 r3 =
      rw (laws.tuple4_lem p q r s)
        (record { at = λ rest. simp (append_assoc, r0.at, r1.at, r2.at, r3.at) })

  pub Reads-tuple6 :
      {A B C D E F : Type 0} {p : Parser A} {q : Parser B} {r : Parser C} {s : Parser D}
      {t : Parser E} {u : Parser F} {b0 b1 b2 b3 b4 b5 : Bytes} {a0 : A} {a1 : B} {a2 : C} {a3 : D}
      {a4 : E} {a5 : F}
      → Reads p b0 a0
      → Reads q b1 a1
      → Reads r b2 a2
      → Reads s b3 a3
      → Reads t b4 a4
      → Reads u b5 a5
      → Reads
          (nom.tuple6 p q r s t u)
          (b0 ++ (b1 ++ (b2 ++ (b3 ++ (b4 ++ b5)))))
          (a0, a1, a2, a3, a4, a5)
  Reads-tuple6 {p} {q} {r} {s} {t} {u} r0 r1 r2 r3 r4 r5 =
      rw (laws.tuple6_lem p q r s t u)
        (record { at = λ rest. simp (append_assoc, r0.at, r1.at, r2.at, r3.at, r4.at, r5.at) })

  pub Reads-tuple7 :
      {A B C D E F G : Type 0} {p : Parser A} {q : Parser B} {r : Parser C} {s : Parser D}
      {t : Parser E} {u : Parser F} {v : Parser G} {b0 b1 b2 b3 b4 b5 b6 : Bytes} {a0 : A} {a1 : B}
      {a2 : C} {a3 : D} {a4 : E} {a5 : F} {a6 : G}
      → Reads p b0 a0
      → Reads q b1 a1
      → Reads r b2 a2
      → Reads s b3 a3
      → Reads t b4 a4
      → Reads u b5 a5
      → Reads v b6 a6
      → Reads
          (nom.tuple7 p q r s t u v)
          (b0 ++ (b1 ++ (b2 ++ (b3 ++ (b4 ++ (b5 ++ b6))))))
          (a0, a1, a2, a3, a4, a5, a6)
  Reads-tuple7 {p} {q} {r} {s} {t} {u} {v} r0 r1 r2 r3 r4 r5 r6 =
      rw (laws.tuple7_lem p q r s t u v) (record {
        at = λ rest. simp (append_assoc, r0.at, r1.at, r2.at, r3.at, r4.at, r5.at, r6.at);
      })

  pub Reads-tuple10 :
      {A B C D E F G H I J : Type 0} {p : Parser A} {q : Parser B} {r : Parser C} {s : Parser D}
      {t : Parser E} {u : Parser F} {v : Parser G} {w : Parser H} {x : Parser I} {y : Parser J}
      {b0 b1 b2 b3 b4 b5 b6 b7 b8 b9 : Bytes} {a0 : A} {a1 : B} {a2 : C} {a3 : D} {a4 : E} {a5 : F}
      {a6 : G} {a7 : H} {a8 : I} {a9 : J}
      → Reads p b0 a0
      → Reads q b1 a1
      → Reads r b2 a2
      → Reads s b3 a3
      → Reads t b4 a4
      → Reads u b5 a5
      → Reads v b6 a6
      → Reads w b7 a7
      → Reads x b8 a8
      → Reads y b9 a9
      → Reads
          (nom.tuple10 p q r s t u v w x y)
          (b0 ++ (b1 ++ (b2 ++ (b3 ++ (b4 ++ (b5 ++ (b6 ++ (b7 ++ (b8 ++ b9)))))))))
          (a0, a1, a2, a3, a4, a5, a6, a7, a8, a9)
  Reads-tuple10 {p} {q} {r} {s} {t} {u} {v} {w} {x} {y} r0 r1 r2 r3 r4 r5 r6 r7 r8 r9 =
      rw (laws.tuple10_lem p q r s t u v w x y) (record {
        at = λ rest.
            simp
              (append_assoc, r0.at, r1.at, r2.at, r3.at, r4.at, r5.at, r6.at, r7.at, r8.at, r9.at);
      })
