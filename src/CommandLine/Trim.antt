-- ===== src/CommandLine/Trim.antt =====
-- The standard library's `str::trim`: without the white space of Unicode at both ends.
use mathlib.Core.List.{reverse}
use hprof_slurp.Prelude.{
  ℕ, zero, suc, Bool, ◌&&◌, ◌||◌, [], ◌∷◌, Option, none, some, ◌==◌, leb, if◌then◌else◌, length,
}
use hprof_slurp.Nom.{Bytes}

-- White space of one, two and three bytes.
abbrev pub is_white1 : ℕ → Bool
is_white1 a = (leb 9 a && leb a 13) || a == 32

abbrev pub is_white2 : ℕ → ℕ → Bool
is_white2 a b = a == 0xc2 && (b == 0x85 || b == 0xa0)

abbrev pub is_white3 : ℕ → ℕ → ℕ → Bool
is_white3 a b c =
    (a == 0xe1 && (b == 0x9a && c == 0x80))
    || ((a == 0xe2
          && ((b == 0x80 && (leb 0x80 c && leb c 0x8a || (c == 0xa8 || (c == 0xa9 || c == 0xaf))))
              || (b == 0x81 && c == 0x9f)))
        || (a == 0xe3 && (b == 0x80 && c == 0x80)))

-- The rest behind one white space character, in a text or in a reversed one.
abbrev pub behind_white : Bytes → Option Bytes
behind_white [] = none
behind_white (a ∷ []) = if is_white1 a then some [] else none
behind_white (a ∷ b ∷ []) =
    if is_white1 a then some (b ∷ []) else if is_white2 a b then some [] else none
behind_white (a ∷ b ∷ c ∷ s) =
    if is_white1 a
    then some (b ∷ c ∷ s)
    else if is_white2 a b
    then some (c ∷ s)
    else if is_white3 a b c
    then some s
    else none

abbrev pub before_white : Bytes → Option Bytes
before_white [] = none
before_white (a ∷ []) = if is_white1 a then some [] else none
before_white (a ∷ b ∷ []) =
    if is_white1 a then some (b ∷ []) else if is_white2 b a then some [] else none
before_white (a ∷ b ∷ c ∷ s) =
    if is_white1 a
    then some (b ∷ c ∷ s)
    else if is_white2 b a
    then some (c ∷ s)
    else if is_white3 c b a
    then some s
    else none

-- As long as there is white space; the number of bytes is fuel enough.
strip : (step : Bytes → Option Bytes) (fuel : ℕ) → Bytes → Bytes
strip step zero s = s
strip step (suc fuel) s = elim (step s) [ none ↦ s | some rest ↦ strip step fuel rest ]

unfoldable pub trim : Bytes → Bytes
unfolding strip
trim s =
    let start = strip behind_white (length s) s in
    reverse (strip before_white (length start) (reverse start))
