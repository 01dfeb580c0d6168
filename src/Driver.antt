-- ===== src/Driver.antt =====
-- src/main.cpp: the arguments of the command line, the commands that build the runtime and the
-- executable, and `main`. The file system, the generated parser and `system` are the record Os.
pub mod Exits
use jb_transpiler.Base.{
  ℕ, ◌≡◌, Text, lit, ◌==◌, Bool, true, false, ◌&&◌, ◌||◌, not, List, [], ◌∷◌, ◌++◌, if◌then◌else◌,
  is_empty, eqb, ltb, length, Exception, compiler_error, runtime_error, invalid_argument,
  out_of_range, Result, ok, throw, hang, terminate,
}
use jb_transpiler.Syntax.Tree.{Program}
use jb_transpiler.Visitor.Program.{transpile}

pub record Options : Type 0 where
  pub output_name : Text
  pub allocator_type : Text
  pub debug : Bool

abbrev pub default_options : Options
default_options = record { output_name = []; allocator_type = lit "reference_count"; debug = false }

-- An argument with none after it: `-o` and `-a` want one.
unfoldable pub last_option : Text → Options → Options
last_option a o = if a == lit "--debug" then record o { debug = true } else o

-- The loop over argv from the third argument on.
unfoldable pub parse_options : List Text → Options → Options
parse_options [] o = o
parse_options (a ∷ []) o = last_option a o
parse_options (a ∷ v ∷ rest) o =
    let output = parse_options rest (record o { output_name = v }) in
    let allocator = parse_options rest (record o { allocator_type = v }) in
    let other = parse_options (v ∷ rest) (last_option a o) in
    if a == lit "-o" then output else if a == lit "-a" then allocator else other

-- What the program does to the outside: text for `cout` and `cerr`, commands for `system`, and the
-- file that it writes, by its name and text.
pub data Event : Type 0 where
  printed complained ran : Text → Event
  wrote : Text → Text → Event

abbrev pub Log : Type 0
Log = List Event

-- The answer to a command depends on what was done before.
pub record Os : Type 0 where
  pub file_exists : Text → Bool
  pub parse : Text → Program
  pub creates : Text → Bool
  pub system : Log → Text → ℕ

unfoldable pub usage : Text → Log
usage name =
    complained
      (lit "Usage: " ++ (name ++ lit " <input-file> -o <output-name> [-a <allocator>] [--debug]\n"))
    ∷ complained (lit "Allocators: simple, reference_count, mark_sweep\n")
    ∷ []

abbrev pub clean_command : Text
clean_command = lit "cd ../runtime && make clean"

abbrev pub build_command : Text → Bool → Text
build_command allocator debug =
    lit "cd ../runtime && make " ++ (allocator ++ (if debug then lit " DEBUG=1" else []))

abbrev pub compile_command : Text → Text → Text
compile_command c_file output =
    lit "cd ../build && gcc -o "
    ++ (output
        ++ (lit " " ++ (c_file ++ lit " ../runtime/lib/libjblang_runtime.a -I ../runtime/include")))

abbrev pub building_text : Text → Bool → Text
building_text allocator debug =
    lit "Building runtime with "
    ++ (allocator
        ++ (lit " allocator" ++ ((if debug then lit " (debug mode)" else []) ++ lit "...\n")))

-- `if (system(command) != 0) { cerr << message; return false; }`, and what follows it
unfoldable pub run_or_fail : Os → Text → Text → (Log → Bool × Log) → Log → Bool × Log
run_or_fail os command message next log =
    if eqb (os.system log command) 0
    then next (log ++ (ran command ∷ []))
    else (false, log ++ (ran command ∷ complained message ∷ []))

-- The last command of compileCode, whose status decides.
unfoldable pub compile_executable : Os → Text → Text → Log → Bool × Log
compile_executable os c_file output log =
    let command = compile_command c_file output in
    let log' = log ++ (printed (lit "Compiling with command: " ++ (command ++ lit "\n")) ∷ []) in
    (eqb (os.system log' command) 0, log' ++ (ran command ∷ []))

unfoldable pub build_runtime : Os → Text → Text → Text → Bool → Log → Bool × Log
build_runtime os c_file output allocator debug log =
    run_or_fail os (build_command allocator debug) (lit "Failed to build runtime\n")
      (compile_executable os c_file output) (log ++ (printed (building_text allocator debug) ∷ []))

unfoldable pub compile_code : Os → Text → Text → Text → Bool → Log → Bool × Log
compile_code os c_file output allocator debug log =
    run_or_fail os clean_command (lit "Failed to clean runtime\n")
      (build_runtime os c_file output allocator debug)
      (log ++ (printed (lit "Cleaning runtime...\n") ∷ []))

abbrev pub Attempt : Type 0
Attempt = Result (Unit {0}) × Log

unfoldable pub failed : Text → Log → Attempt
failed message log = (throw (runtime_error message), log)

-- The `try` block from the opening of the output file on.
unfoldable pub write_and_compile : Os → Options → Text → Log → Attempt
unfolding failed
write_and_compile os o code log =
    let c_file = o.output_name ++ lit ".c" in
    let written =
      log
      ++ (wrote c_file code
          ∷ printed (lit "Successfully generated C code: " ++ (c_file ++ lit "\n"))
          ∷ []) in
    let (compiled, log') = compile_code os c_file o.output_name o.allocator_type o.debug written in
    if not (os.creates c_file)
    then failed (lit "Failed to create output C file: " ++ c_file) log
    else if not compiled
    then failed (lit "Compilation failed") log'
    else (
      ok tt,
      log'
          ++ (printed (lit "Successfully compiled executable: " ++ (o.output_name ++ lit "\n"))
              ∷ []),
    )

-- What follows the translation.
unfoldable pub after_translation : Os → Options → Log → Result Text → Attempt
after_translation os o log (ok code) = write_and_compile os o code log
after_translation os o log (throw e) = (throw e, log)
after_translation os o log hang = (hang, log)
after_translation os o log terminate = (terminate, log)

-- The `try` block.
unfoldable pub attempt : Os → Text → Options → Log → Attempt
unfolding failed
attempt os input o log =
    if not (os.file_exists input)
    then failed (lit "Input file does not exist: " ++ input) log
    else if not (os.file_exists (lit "../runtime/include/runtime.h"))
    then failed (lit "Runtime files not found in runtime/ directory") log
    else after_translation os o log
        (transpile (o.allocator_type == lit "reference_count") (os.parse input))

abbrev pub what : Exception → Text
what (compiler_error t message) = message
what (runtime_error message) = message
what invalid_argument = lit "stoi"
what out_of_range = lit "stoi"

-- The `catch` block, and the status that `main` returns.
unfoldable pub caught : Attempt → Result (ℕ × Log)
caught (ok _, log) = ok (0, log)
caught (throw e, log) = ok (1, log ++ (complained (lit "Error: " ++ (what e ++ lit "\n")) ∷ []))
caught (hang, log) = hang
caught (terminate, log) = terminate

abbrev pub known_allocator : Text → Bool
known_allocator a = (a == lit "simple") || ((a == lit "reference_count") || (a == lit "mark_sweep"))

-- `main` with the options read.
unfoldable pub run_main : Os → Text → Text → Options → Result (ℕ × Log)
run_main os name input o =
    if is_empty o.output_name
    then ok (1, complained (lit "Error: Output name not specified\n") ∷ usage name)
    else if not (known_allocator o.allocator_type)
    then ok (
      1,
      complained (lit "Error: Invalid allocator type: " ++ (o.allocator_type ++ lit "\n"))
          ∷ usage name,
    )
    else caught (
        attempt os input o
          (printed (lit "Using allocator: " ++ (o.allocator_type ++ lit "\n")) ∷ []))

-- The arguments are those after the program's own name. `argc < 4`: fewer than three of them.
unfoldable pub main : Os → Text → List Text → Result (ℕ × Log)
main os name [] = ok (1, usage name)
main os name (input ∷ rest) =
    if ltb (length rest) 2
    then ok (1, usage name)
    else run_main os name input (parse_options rest default_options)
