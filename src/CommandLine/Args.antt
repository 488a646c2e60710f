-- ===== src/CommandLine/Args.antt =====
-- src/args.rs: the arguments, from what the third-party library clap has matched.
use hprof_slurp.Prelude.{ℕ, Bool, Option, not, if◌then◌else◌}
use hprof_slurp.Nom
use hprof_slurp.Slurp.Header.{Result, done, err, input_file_not_found}
use hprof_slurp.Slurp.Pipeline.{and_slurp}
use hprof_slurp.CommandLine.Trim.{trim}

pub record Args : Type 0 where
  pub file_path : Nom.Bytes
  pub top : ℕ
  pub debug : Bool
  pub list_strings : Bool
  pub json_output : Bool
  pub output_file : Option Nom.Bytes

pub record DiffArgs : Type 0 where
  pub from : Nom.Bytes
  pub to : Nom.Bytes
  pub top : ℕ

pub data ParsedArgs : Type 0 where
  analyze : Args → ParsedArgs
  diff : DiffArgs → ParsedArgs

-- What `ArgMatches` of clap holds: the arguments of the subcommand `diff`, or those without it.
pub record DiffMatches : Type 0 where
  pub from : Nom.Bytes
  pub to : Nom.Bytes
  pub top : ℕ

pub record FileMatches : Type 0 where
  pub file : Nom.Bytes
  pub top : ℕ
  pub debug : Bool
  pub list_strings : Bool
  pub json : Bool
  pub output : Option Nom.Bytes

pub data ArgMatches : Type 0 where
  diff_matches : DiffMatches → ArgMatches
  file_matches : FileMatches → ArgMatches

-- `Path::is_file` is an argument.
module _ (is_file : Nom.Bytes → Bool) where
  unfoldable pub existing_file : Nom.Bytes → Result Nom.Bytes
  existing_file raw_path =
      let path = trim raw_path in if not (is_file path) then err input_file_not_found else done path

  unfoldable pub get_args : ArgMatches → Result ParsedArgs
  unfolding existing_file
  get_args (diff_matches m) = and_slurp (existing_file m.from) λ from.
      and_slurp (existing_file m.to)
        λ to. done (ParsedArgs.diff (record { from = from; to = to; top = m.top }))
  get_args (file_matches m) = and_slurp (existing_file m.file) λ file_path. done (
      analyze (record {
        file_path = file_path;
        top = m.top;
        debug = m.debug;
        list_strings = m.list_strings;
        json_output = m.json;
        output_file = m.output;
      }))
