-- ===== src/Slurp/Prefetch.antt =====
-- src/prefetch_reader.rs: the thread that reads the file in chunks.
use hprof_slurp.Prelude.{
  ℕ, zero, suc, ◌+◌, ◌-◌, ◌<◌, ◌≤◌, ◌≡◌, refl, min, List, [], ◌∷◌, length, length-take, length-drop,
  take, drop, take-append-drop, ltb, ◌==◌, if◌then◌else◌, All, arith, sym, Bool-cases, inl, inr,
  false,
}
use hprof_slurp.Nom.{Bytes}
use hprof_slurp.Parser.Stream.Chunks.{concat}

-- `reader` is what the buffered reader has left of the file.
pub record PrefetchReader : Type 0 where
  pub reader : Bytes
  pub file_len : ℕ
  pub processed_len : ℕ
  pub read_size : ℕ

-- How the thread ends: at the end of the file, or with the panic of a read that fails. `stuck` is no
-- outcome of the program, it says that the model's fuel ran out.
pub data End : Type 0 where
  finished failed stuck : End

abbrev pub then_send : Bytes → List Bytes × End → List Bytes × End
then_send chunk (chunks, end) = (chunk ∷ chunks, end)

-- The loop, with the chunks that it sends. The buffers that come back are resized and overwritten,
-- so they leave no trace in the chunks.
unfoldable pub prefetch : ℕ → PrefetchReader → List Bytes × End
prefetch zero p = ([], stuck)
prefetch (suc fuel) p =
    let remaining = p.file_len - p.processed_len in
    let next_size = min remaining p.read_size in
    let later = prefetch fuel (record p {
      reader = drop next_size p.reader;
      processed_len = p.processed_len + next_size;
    }) in
    if p.processed_len == p.file_len
    then ([], finished)
    else if ltb (length p.reader) next_size
    then ([], failed)
    else then_send (take next_size p.reader) later

nil_of_length : {A : Type 0} (xs : List A) → length xs ≡ 0 → xs ≡ []
nil_of_length [] h = refl
nil_of_length (x ∷ xs) h = absurd (omega (arith, h))

not_short : (n k : ℕ) → k ≤ n → ltb n k ≡ false
not_short n k h = ground arith

-- If the reader has all of the file that is not processed yet, chunks may have a byte at least, and
-- the fuel is more than the bytes that the reader has, then the thread ends at the end of the file,
-- when it has sent the rest of the file in chunks that have no more than `read_size` bytes.
pub prefetch_lem :
    (fuel : ℕ) (p : PrefetchReader)
    → length p.reader < fuel
    → p.processed_len + length p.reader ≡ p.file_len
    → 0 < p.read_size
    → (chunks : List Bytes) × (prefetch fuel p ≡ (chunks, finished))
      × (concat chunks ≡ p.reader)
      × All (λ chunk. length chunk ≤ p.read_size) chunks
unfolding prefetch
prefetch_lem zero p hf whole hr = absurd (omega arith)
prefetch_lem (suc fuel) p hf whole hr =
    let next_size = min (p.file_len - p.processed_len) p.read_size in
    let size : min next_size (length p.reader) ≡ next_size = omega arith in
    elim (Bool-cases (p.processed_len == p.file_len)) [
      | inl e ↦ ([], rw e refl, sym (nil_of_length p.reader (ground arith)), tt)
      | inr e ↦
          let shorter = length-drop next_size p.reader in
          let len = length-take next_size p.reader in
          let left : 0 < length p.reader = ground arith in
          let (chunks, ran, same, small) =
            prefetch_lem fuel
              (record p {
                reader = drop next_size p.reader;
                processed_len = p.processed_len + next_size;
              })
              (omega (arith, shorter, left)) (omega (arith, shorter)) hr in
          (
            take next_size p.reader ∷ chunks,
            rw (e, not_short (length p.reader) next_size (omega (arith, size)), ran) refl,
            rw same (take-append-drop next_size p.reader),
            (omega (arith, len), small),
          )
    ]
