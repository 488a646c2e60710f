-- ===== src/Utils/Timestamp.antt =====
-- `pretty_timestamp_utc` of src/utils.rs.
use hprof_slurp.Prelude.{ℕ, ◌/◌, ◌%◌, ◌++◌}
use hprof_slurp.Nom.{Bytes}
use hprof_slurp.Text.{text}
use hprof_slurp.Text.Digits.{decimal}
use hprof_slurp.Text.Padding.{zero_padded}
use hprof_slurp.Utils.Civil.{civil_from_days}

abbrev pub two_digits : ℕ → Bytes
two_digits n = zero_padded 2 (decimal n)

-- `YYYY-MM-DD HH:MM:SS UTC`
abbrev pub date_and_time : ℕ × ℕ × ℕ → ℕ → ℕ → ℕ → Bytes
date_and_time (year, month, day) hours minutes seconds =
    zero_padded 4 (decimal year)
    ++ (text "-"
        ++ (two_digits month
            ++ (text "-"
                ++ (two_digits day
                    ++ (text " "
                        ++ (two_digits hours
                            ++ (text ":"
                                ++ (two_digits minutes
                                    ++ (text ":" ++ (two_digits seconds ++ text " UTC"))))))))))

unfoldable pub pretty_timestamp_utc : ℕ → Bytes
pretty_timestamp_utc epoch_millis =
    let secs = epoch_millis / 1000 in
    let secs_of_day = secs % 86400 in
    date_and_time (civil_from_days (secs / 86400)) (secs_of_day / 3600) (secs_of_day % 3600 / 60)
      (secs_of_day % 60)
