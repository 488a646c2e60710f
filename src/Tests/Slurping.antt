-- ===== src/Tests/Slurping.antt =====
-- A whole file: its header, its chunks, and what the recorder captures of it.
use hprof_slurp.Prelude.{
  ◌≤◌, ◌≡◌, refl, inl, false, List, [], ◌∷◌, ◌++◌, ◌==◌, ◌||◌, if◌then◌else◌, length, All, arith,
}
use hprof_slurp.Nom.{Bytes}
use hprof_slurp.Nom.Reference.{nom, laws}
use hprof_slurp.Nom.Reads.{write_all}
use hprof_slurp.Parser.FileHeader.{from_bytes}
use hprof_slurp.Parser.Stream.Chunks.{concat}
use hprof_slurp.Format.Dump.{write_item, records_of}
use hprof_slurp.Recorder.State.{ResultRecorder, nothing_captured}
use hprof_slurp.Recorder.Events.{events, captures}
use hprof_slurp.Slurp.Header.{
  done, err, invalid_id_size, slurp_header, write_file_header, slurp_header_lem,
}
use hprof_slurp.Slurp.Prefetch.{PrefetchReader, finished, prefetch, prefetch_lem}
use hprof_slurp.Slurp.Pipeline.{received, slurp_file, slurp_file_lem}
use hprof_slurp.Report.Finish.{finish}
use hprof_slurp.Tests.Parsing.{sample, sample_fits}

-- "JAVA PROFILE 1.0.2"
abbrev pub java_profile : Bytes
java_profile =
    74 ∷ 65 ∷ 86 ∷ 65 ∷ 32 ∷ 80 ∷ 82 ∷ 79 ∷ 70 ∷ 73 ∷ 76 ∷ 69 ∷ 32 ∷ 49 ∷ 46 ∷ 48 ∷ 46 ∷ 50 ∷ []

no_zero : All (λ b. (b == 0) ≡ false) java_profile
no_zero = (
  refl,
  (
    refl,
    (
      refl,
      (
        refl,
        (
          refl,
          (
            refl,
            (
              refl,
              (
                refl,
                (refl, (refl, (refl, (refl, (refl, (refl, (refl, (refl, (refl, (refl, tt)))))))))),
              ),
            ),
          ),
        ),
      ),
    ),
  ),
)

slurp_header_lem_example :
    slurp_header nom (write_file_header java_profile 5 1608192273831 ++ (1 ∷ 2 ∷ [])) ≡ (
      if (5 == 4) || (5 == 8)
      then done (from_bytes java_profile 5 1608192273831, 1 ∷ 2 ∷ [])
      else err invalid_id_size)
slurp_header_lem_example =
    slurp_header_lem laws java_profile 5 1608192273831 (1 ∷ 2 ∷ []) refl no_zero (omega arith)
      (omega arith)

abbrev five_bytes : PrefetchReader
five_bytes = record {
  reader = 1 ∷ 2 ∷ 3 ∷ 4 ∷ 5 ∷ [];
  file_len = 36;
  processed_len = 31;
  read_size = 2;
}

chunks_of_five : prefetch 6 five_bytes ≡ ((1 ∷ 2 ∷ []) ∷ (3 ∷ 4 ∷ []) ∷ (5 ∷ []) ∷ [], finished)
unfolding prefetch
chunks_of_five = refl

prefetch_lem_example :
    (chunks : List Bytes) × (prefetch 6 five_bytes ≡ (chunks, finished))
    × (concat chunks ≡ 1 ∷ 2 ∷ 3 ∷ 4 ∷ 5 ∷ [])
    × All (λ chunk. length chunk ≤ 2) chunks
prefetch_lem_example = prefetch_lem 6 five_bytes (omega arith) refl (omega arith)

slurp_file_lem_example :
    (s' : ResultRecorder) × (slurp_file nom 9 false false
        (write_file_header java_profile 4 1608192273831 ++ write_all (write_item 4) sample)
      ≡ received (from_bytes java_profile 4 1608192273831) (finish 9 s'))
    × (s'.id_size ≡ 4)
    × (s'.captured ≡ captures nothing_captured (events 4 (records_of 4 sample)))
slurp_file_lem_example =
    slurp_file_lem laws 9 false false java_profile 4 1608192273831 sample refl no_zero (inl refl)
      (omega arith) sample_fits
