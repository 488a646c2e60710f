-- ===== src/Text/Padding.antt =====
-- Padding to a width, in characters.
use hprof_slurp.Prelude.{ℕ, zero, suc, ◌+◌, ◌-◌, ◌≡◌, refl, [], ◌∷◌, ◌++◌, arith, ltb, true}
use hprof_slurp.Nom.{Bytes}
use hprof_slurp.Text.{char_count}

-- `str::repeat` of one character of one byte.
abbrev pub repeat : ℕ → ℕ → Bytes
repeat c zero = []
repeat c (suc n) = c ∷ repeat c n

-- `{:0w}` and `{:>w}`.
abbrev pub zero_padded : ℕ → Bytes → Bytes
zero_padded w s = repeat 48 (w - char_count s) ++ s

abbrev pub right_aligned : ℕ → Bytes → Bytes
right_aligned w s = repeat 32 (w - char_count s) ++ s

pub char_count-append : (s t : Bytes) → char_count (s ++ t) ≡ char_count s + char_count t
char_count-append [] t = omega arith
char_count-append (b ∷ s) t = omega (arith, char_count-append s t)

pub char_count-repeat : (c n : ℕ) → ltb c 0x80 ≡ true → char_count (repeat c n) ≡ n
char_count-repeat c zero h = refl
char_count-repeat c (suc n) h = ground (arith, char_count-repeat c n h)
