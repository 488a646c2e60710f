-- ===== src/Nom/Reference.antt =====
-- A nom that does what `NomLaws` says and no more: the laws can be met, and a parser over it runs.
use hprof_slurp.Prelude.{ℕ, refl, signed, [], ◌∷◌}
use hprof_slurp.Nom.{
  Nom, NomLaws, Bytes, Parser, error, ok, map_ok, take_bytes, be_uint, repeat, until_byte, one_byte,
  seq,
}

abbrev first_byte : (ℕ → Parser Bytes) → Bytes → Parser Bytes
first_byte p [] i = error
first_byte p (c ∷ _) i = p c i

abbrev pub nom : Nom
nom = record {
  be_u8 = be_uint 1;
  be_u16 = be_uint 2;
  be_u32 = be_uint 4;
  be_u64 = be_uint 8;
  be_i8 = λ i. map_ok (signed 8) (be_uint 1 i);
  be_i16 = λ i. map_ok (signed 16) (be_uint 2 i);
  be_i32 = λ i. map_ok (signed 32) (be_uint 4 i);
  be_i64 = λ i. map_ok (signed 64) (be_uint 8 i);
  be_f32 = be_uint 4;
  be_f64 = be_uint 8;
  take = take_bytes;
  take_until = first_byte until_byte;
  tag = first_byte one_byte;
  map = λ p f. seq p (λ a i. ok i (f a));
  flat_map = λ p f. seq p f;
  count = λ p n. repeat p n;
  preceded = λ p q. seq p (λ _. q);
  terminated = λ p q. seq p (λ a. seq q (λ _ i. ok i a));
  tuple2 = λ p q. seq p (λ a. seq q (λ b i. ok i (a, b)));
  tuple3 = λ p q r. seq p (λ a. seq q (λ b. seq r (λ c i. ok i (a, b, c))));
  tuple4 = λ p q r s. seq p (λ a. seq q (λ b. seq r (λ c. seq s (λ d i. ok i (a, b, c, d)))));
  tuple6 = λ p q r s t u. seq p (λ a.
      seq q (λ b. seq r (λ c. seq s (λ d. seq t (λ e. seq u (λ f i. ok i (a, b, c, d, e, f)))))));
  tuple7 = λ p q r s t u v. seq p (λ a. seq q (λ b.
      seq r
        (λ c. seq s (λ d. seq t (λ e. seq u (λ f. seq v (λ g i. ok i (a, b, c, d, e, f, g))))))));
  tuple10 = λ p q r s t u v w x y. seq p (λ a. seq q (λ b. seq r (λ c. seq s (λ d. seq t (λ e.
      seq u (λ f.
        seq v
          (λ g. seq w (λ h. seq x (λ k. seq y (λ l i. ok i (a, b, c, d, e, f, g, h, k, l)))))))))));
}

abbrev pub laws : NomLaws nom
laws = record {
  be_u8_lem = refl;
  be_u16_lem = refl;
  be_u32_lem = refl;
  be_u64_lem = refl;
  be_i8_lem = refl;
  be_i16_lem = refl;
  be_i32_lem = refl;
  be_i64_lem = refl;
  be_f32_lem = refl;
  be_f64_lem = refl;
  take_lem = λ n. refl;
  take_until_lem = λ c. refl;
  tag_lem = λ c. refl;
  map_lem = λ p f. refl;
  flat_map_lem = λ p f. refl;
  count_lem = λ p n. refl;
  preceded_lem = λ p q. refl;
  terminated_lem = λ p q. refl;
  tuple2_lem = λ p q. refl;
  tuple3_lem = λ p q r. refl;
  tuple4_lem = λ p q r s. refl;
  tuple6_lem = λ p q r s t u. refl;
  tuple7_lem = λ p q r s t u v. refl;
  tuple10_lem = λ p q r s t u v w x y. refl;
}
