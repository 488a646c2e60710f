-- ===== src/CommandLine/Laws.antt =====
-- What the commands of src/args.rs and src/main.rs do.
use hprof_slurp.Prelude.{
  ◌≡◌, refl, Bool, true, [], ◌∷◌, List, Bool-cases, inl, inr, ◌&&◌, if◌then◌else◌,
}
use hprof_slurp.Nom
use hprof_slurp.Nom.{Nom}
use hprof_slurp.Slurp.Header.{done, err, input_file_not_found}
use hprof_slurp.CommandLine.Trim.{trim}
use hprof_slurp.CommandLine.Args.{
  ParsedArgs, ArgMatches, analyze, diff_matches, file_matches, existing_file, get_args,
}

-- The paths that are asked for.
abbrev pub paths_of : ArgMatches → List Nom.Bytes
paths_of (diff_matches m) = m.from ∷ m.to ∷ []
paths_of (file_matches m) = m.file ∷ []

-- What is asked for, without white space around the paths.
abbrev pub trimmed : ArgMatches → ParsedArgs
trimmed (diff_matches m) =
    ParsedArgs.diff (record { from = trim m.from; to = trim m.to; top = m.top })
trimmed (file_matches m) = analyze (record {
  file_path = trim m.file;
  top = m.top;
  debug = m.debug;
  list_strings = m.list_strings;
  json_output = m.json;
  output_file = m.output;
})

abbrev pub all_are_files : (Nom.Bytes → Bool) → List Nom.Bytes → Bool
all_are_files is_file [] = true
all_are_files is_file (path ∷ paths) = is_file (trim path) && all_are_files is_file paths

-- The arguments are accepted, without white space around their paths, if all of these are paths of
-- files, and else the error is that a file was not found.
pub get_args_lem :
    (is_file : Nom.Bytes → Bool) (m : ArgMatches)
    → get_args is_file m
      ≡ (if all_are_files is_file (paths_of m) then done (trimmed m) else err input_file_not_found)
unfolding get_args existing_file
get_args_lem is_file (diff_matches m) = elim (Bool-cases (is_file (trim m.from))) [
  | inl e ↦ elim (Bool-cases (is_file (trim m.to))) [
    | inl f ↦ rw (e, f) refl
    | inr f ↦ rw (e, f) refl
  ]
  | inr e ↦ rw e refl
]
get_args_lem is_file (file_matches m) = elim (Bool-cases (is_file (trim m.file))) [
  | inl e ↦ rw e refl
  | inr e ↦ rw e refl
]
