-- ===== src/Tests/Commands.antt =====
-- The command line of the transpiler.
use jb_transpiler.Base.{◌≡◌, refl, Text, lit, ◌==◌, true, List, [], ◌∷◌}
use jb_transpiler.Syntax.Tree.{no_stmts}
use jb_transpiler.Driver.{default_options, parse_options, last_option, Os, main}
use jb_transpiler.Driver.Exits.{Exits, main-Exits}

abbrev arguments : List Text
arguments = lit "-o" ∷ lit "out" ∷ lit "--debug" ∷ lit "-a" ∷ lit "mark_sweep" ∷ lit "-o" ∷ []

-- The second `-o` has nothing after it.
arguments_read :
    parse_options arguments default_options
    ≡ record { output_name = lit "out"; allocator_type = lit "mark_sweep"; debug = true }
unfolding parse_options last_option ◌==◌ lit
arguments_read = refl

-- Every file exists, and every command succeeds.
abbrev sample_os : Os
sample_os = record {
  file_exists = λ f. true;
  parse = λ f. record { directives = []; statements = no_stmts };
  creates = λ f. true;
  system = λ log command. 0;
}

main-Exits_example :
    Exits sample_os
      (lit "a.jb")
      (parse_options arguments default_options)
      (main sample_os (lit "jb") (lit "a.jb" ∷ arguments))
main-Exits_example = main-Exits sample_os (lit "jb") (lit "a.jb") arguments
