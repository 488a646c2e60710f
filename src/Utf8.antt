-- ===== src/Utf8.antt =====
-- `String::from_utf8_lossy` of Rust's standard library, on bytes: each longest piece that no UTF-8
-- text begins with or goes on from becomes the replacement character.
use hprof_slurp.Prelude.{
  ℕ, zero, suc, ◌&&◌, [], ◌∷◌, ◌++◌, ltb, leb, ◌==◌, if◌then◌else◌, ◌≡◌, refl, ◌<◌, All, arith,
}
use hprof_slurp.Nom.{Bytes}

abbrev replacement : Bytes
replacement = 0xef ∷ 0xbf ∷ 0xbd ∷ []

-- Between two characters, or behind the bytes `held` of one that wants `left + 1` more bytes, of
-- which the next lies in `lo` to `hi`.
pub data State : Type 0 where
  between : State
  within : (held : Bytes) (left lo hi : ℕ) → State

-- What a byte at the start of a character gives out, and the state after it.
start : ℕ → Bytes × State
start b =
    if ltb b 0x80
    then (b ∷ [], between)
    else if leb 0xc2 b && leb b 0xdf
    then ([], within (b ∷ []) 0 0x80 0xbf)
    else if b == 0xe0
    then ([], within (b ∷ []) 1 0xa0 0xbf)
    else if b == 0xed
    then ([], within (b ∷ []) 1 0x80 0x9f)
    else if leb 0xe1 b && leb b 0xef
    then ([], within (b ∷ []) 1 0x80 0xbf)
    else if b == 0xf0
    then ([], within (b ∷ []) 2 0x90 0xbf)
    else if leb 0xf1 b && leb b 0xf3
    then ([], within (b ∷ []) 2 0x80 0xbf)
    else if b == 0xf4
    then ([], within (b ∷ []) 2 0x80 0x8f)
    else (replacement, between)

go_on : Bytes → ℕ → ℕ → Bytes × State
go_on held zero b = (held ++ b ∷ [], between)
go_on held (suc left) b = ([], within (held ++ b ∷ []) left 0x80 0xbf)

restart : Bytes × State → Bytes × State
restart (out, s) = (replacement ++ out, s)

step : State → ℕ → Bytes × State
unfolding start go_on restart
step between b = start b
step (within held left lo hi) b =
    if leb lo b && leb b hi then go_on held left b else restart (start b)

decode : State → Bytes → Bytes
unfolding step
decode between [] = []
decode (within held left lo hi) [] = replacement
decode s (b ∷ bs) = let (out, s') = step s b in out ++ decode s' bs

unfoldable pub from_utf8_lossy : Bytes → Bytes
unfolding decode
from_utf8_lossy = decode between

-- ASCII text is kept as it is.
pub from_utf8_lossy_ascii : (bs : Bytes) → All (λ b. b < 0x80) bs → from_utf8_lossy bs ≡ bs
unfolding from_utf8_lossy
from_utf8_lossy_ascii [] h = refl
from_utf8_lossy_ascii (b ∷ bs) h = ground (arith, from_utf8_lossy_ascii bs h.1)

-- é, a lone continuation byte, a cut euro sign, and an overlong form.
lossy_mixed :
    from_utf8_lossy (0xc3 ∷ 0xa9 ∷ 0x80 ∷ 0xe2 ∷ 0x82 ∷ b'a' ∷ 0xc0 ∷ [])
    ≡ 0xc3 ∷ 0xa9 ∷ replacement ++ (replacement ++ (b'a' ∷ replacement))
unfolding from_utf8_lossy
lossy_mixed = refl
