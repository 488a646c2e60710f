-- ===== src/CommandLine/Main.antt =====
-- src/main.rs, and `save_as_file` of src/rendered_result.rs: the commands, as functions of the files
-- that there are. What was printed before an error or a panic is left out.
use hprof_slurp.Prelude.{ℕ, Bool, false, List, [], ◌++◌, Option, none, some, if◌then◌else◌, length}
use hprof_slurp.Nom
use hprof_slurp.Nom.{Nom}
use hprof_slurp.Text.{text}
use hprof_slurp.Text.Digits.{decimal}
use hprof_slurp.Utils.PrettySize.{F64, pretty_bytes_size}
use hprof_slurp.Parser.FileHeader.{FileHeader}
use hprof_slurp.Slurp.Header.{Result, done, err, panics, stuck, std_io_error, serde_error}
use hprof_slurp.Slurp.Pipeline.{and_slurp, slurp_file}
use hprof_slurp.Rendered.Stats.{ClassAllocationStats}
use hprof_slurp.Rendered.Json
use hprof_slurp.Rendered.Json.{JsonResult, dump_info}
use hprof_slurp.Rendered.Memory.{RenderedResult, serialize}
use hprof_slurp.Diff.Compute.{compute}
use hprof_slurp.Diff.Render.{render}
use hprof_slurp.CommandLine.Args.{Args, DiffArgs, ParsedArgs, ArgMatches, analyze, get_args}

-- The operating system: its files, whether a file can be created, and written, the clock, and the
-- time that the program took, as text.
pub record System : Type 0 where
  pub is_file : Nom.Bytes → Bool
  pub contents : Nom.Bytes → Option Nom.Bytes
  pub creates : Nom.Bytes → Bool
  pub writes : JsonResult → Bool
  pub millis : ℕ
  pub elapsed : Nom.Bytes

-- What is printed, and the JSON result with its path, if it is written.
pub record Output : Type 0 where
  pub printed : Nom.Bytes
  pub saved : Option (Nom.Bytes × JsonResult)

abbrev pub or_error : {A : Type 0} → Option A → Result A
or_error none = err std_io_error
or_error (some a) = done a

module _ (sys : System) where
  abbrev pub json_path : Option Nom.Bytes → Nom.Bytes
  json_path none = text "hprof-slurp-" ++ (decimal sys.millis ++ text ".json")
  json_path (some path) = path

  abbrev pub save_as_file : JsonResult → Option Nom.Bytes → Result Output
  save_as_file result output_path =
      let file_path = json_path output_path in
      if sys.creates file_path
      then (if sys.writes result
          then done (record {
            printed = text "Output JSON result file " ++ (file_path ++ text "\n");
            saved = some (file_path, result);
          })
          else err serde_error)
      else err std_io_error

  module _ (nom : Nom) (f64 : F64) (fuel : ℕ) where
    -- The line that `slurp_file` prints behind the header.
    abbrev processing : Nom.Bytes → FileHeader → Nom.Bytes
    processing file header =
        text "Processing "
        ++ (pretty_bytes_size f64 (length file)
            ++ (text " binary hprof file in '" ++ (header.format ++ text "' format.\n")))

    -- `slurp_file` from its path on, with the contents of the file.
    unfoldable pub slurp_path :
        Nom.Bytes → (debug list_strings : Bool) → Result (Nom.Bytes × FileHeader × RenderedResult)
    slurp_path file_path debug list_strings = and_slurp (or_error (sys.contents file_path)) λ file.
        and_slurp (slurp_file nom fuel debug list_strings file)
          λ (header, result). done (file, header, result)

    abbrev or_panic : Option Nom.Bytes → Result Nom.Bytes
    or_panic none = panics
    or_panic (some s) = done s

    -- The text, behind what was printed before it.
    abbrev print_result : Args → RenderedResult → Nom.Bytes → Output → Result Output
    print_result args result line saved =
        and_slurp (or_panic (serialize f64 result args.top))
          λ s. done (record { printed = line ++ (saved.printed ++ s); saved = saved.saved })

    abbrev pub with_memory_usage : RenderedResult → List ClassAllocationStats → RenderedResult
    with_memory_usage result memory_usage = record result { memory_usage = memory_usage }

    -- With `--json`, the text is made of the memory usage as the JSON result has left it sorted.
    abbrev pub analyzed : Args → Nom.Bytes → FileHeader → RenderedResult → Result Output
    analyzed args file header result =
        let line = processing file header in
        let (json_result, sorted) =
          Json.new
            (dump_info args.file_path (length file) header.format header.size_pointers
              header.timestamp)
            result.memory_usage args.top in
        if args.json_output
        then (and_slurp (save_as_file json_result args.output_file)
            λ saved. print_result args (with_memory_usage result sorted) line saved)
        else print_result args result line (record { printed = []; saved = none })

    unfoldable pub analyze_file : Args → Result Output
    analyze_file args =
        and_slurp (slurp_path args.file_path args.debug args.list_strings)
          λ (file, header, result). analyzed args file header result

    unfoldable pub diff_files : DiffArgs → Result Output
    diff_files diff_args =
        and_slurp (slurp_path diff_args.from false false) λ (file_from, header_from, result_from).
          and_slurp (slurp_path diff_args.to false false) λ (file_to, header_to, result_to).
            let from = result_from.memory_usage in
            let to = result_to.memory_usage in
            done (record {
              printed =
                  processing file_from header_from
                  ++ (processing file_to header_to
                      ++ render f64 diff_args.from diff_args.to from to (compute from to)
                          diff_args.top);
              saved = none;
            })

    abbrev pub then_print : Nom.Bytes → Output → Result Output
    then_print what o =
        done
          (record { printed = o.printed ++ (what ++ (sys.elapsed ++ text "\n")); saved = o.saved })

    abbrev pub run_args : ParsedArgs → Result Output
    run_args (analyze args) =
        and_slurp (analyze_file args) (then_print (text "File successfully processed in "))
    run_args (ParsedArgs.diff diff_args) =
        and_slurp (diff_files diff_args) (then_print (text "Files successfully compared in "))

    unfoldable pub main_result : ArgMatches → Result Output
    main_result matches = and_slurp (get_args sys.is_file matches) run_args

    -- The exit code; a panic of the main thread exits with 101.
    abbrev pub exit_code : Result Output → Option ℕ
    exit_code (done o) = some 0
    exit_code (err e) = some 1
    exit_code panics = some 101
    exit_code stuck = none

    abbrev pub main : ArgMatches → Option ℕ
    main matches = exit_code (main_result matches)
