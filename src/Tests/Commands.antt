-- ===== src/Tests/Commands.antt =====
-- The commands, on a file that holds a header and nothing else.
use hprof_slurp.Prelude.{◌≡◌, refl, true, false, none, some, if◌then◌else◌}
use hprof_slurp.Nom
use hprof_slurp.Nom.Reference.{nom}
use hprof_slurp.Text.{text}
use hprof_slurp.Text.Digits.{decimal}
use hprof_slurp.Parser.LazyMany.{bytes_eq}
use hprof_slurp.Parser.FileHeader.{parse_file_header}
use hprof_slurp.Parser.Primitive.{parse_c_string, parse_u32, parse_u64}
use hprof_slurp.Slurp.Header.{done, err, input_file_not_found, write_file_header, slurp_header}
use hprof_slurp.Slurp.Prefetch.{prefetch}
use hprof_slurp.Slurp.Pipeline.{slurp_file, slurp_records}
use hprof_slurp.Parser.Stream.{run}
use hprof_slurp.Rendered.Memory.{serialize, render_memory_usage}
use hprof_slurp.Rendered.Table.{render_table}
use hprof_slurp.Report.Finish.{finish}
use hprof_slurp.Report.Threads.{render_thread_info}
use hprof_slurp.Report.Usage.{aggregate_memory_usage}
use hprof_slurp.CommandLine.Trim.{trim}
use hprof_slurp.CommandLine.Args.{ArgMatches, file_matches, diff_matches, existing_file, get_args}
use hprof_slurp.CommandLine.Main.{main, main_result, analyze_file, System, slurp_path}
use hprof_slurp.CommandLine.Laws.{paths_of, trimmed, all_are_files, get_args_lem}
use hprof_slurp.Tests.Rendering.{whole}
use hprof_slurp.Tests.Slurping.{java_profile}

abbrev path : Nom.Bytes
path = text "a.hprof"

abbrev file : Nom.Bytes
file = write_file_header java_profile 4 0

abbrev sys : System
sys = record {
  is_file = bytes_eq path;
  contents = λ p. if bytes_eq path p then some file else none;
  creates = λ _. true;
  writes = λ _. true;
  millis = 1608192273831;
  elapsed = text "1ms";
}

abbrev matches : ArgMatches
matches = diff_matches (record { from = text " a.hprof\n"; to = text "b.hprof"; top = 20 })

get_args_lem_example : get_args sys.is_file matches ≡ (
    if all_are_files sys.is_file (paths_of matches)
    then done (trimmed matches)
    else err input_file_not_found)
get_args_lem_example = get_args_lem sys.is_file matches

trim_run : trim (text " a.hprof\n") ≡ path
unfolding trim
trim_run = refl

abbrev analysis_of_it : ArgMatches
analysis_of_it = file_matches (record {
  file = path;
  top = 20;
  debug = false;
  list_strings = false;
  json = false;
  output = none;
})

-- A dump without objects panics when it is printed.
main_run : main sys nom whole 9 analysis_of_it ≡ some 101
unfolding slurp_path slurp_file slurp_records slurp_header prefetch run finish render_thread_info
    aggregate_memory_usage decimal parse_file_header parse_c_string parse_u32 parse_u64 main_result
    get_args existing_file trim analyze_file serialize render_memory_usage render_table
main_run = refl
