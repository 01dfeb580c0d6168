-- ===== src/Driver/Exits.antt =====
-- How `main` of src/main.cpp ends.
use jb_transpiler.Base.{
  ℕ, ◌≡◌, refl, ◌⊎◌, inl, inr, Text, lit, ◌==◌, Bool, true, false, List, [], ◌∷◌, ◌++◌, is_empty,
  eqb, ltb, length, Bool-cases, Result, ok, throw, hang, terminate,
}
use jb_transpiler.Visitor.Program.{transpile}
use jb_transpiler.Runtime.Machine.{In}
use jb_transpiler.Driver.{
  Options, default_options, parse_options, Event, printed, complained, ran, wrote, Log, Os, usage,
  compile_command, build_command, clean_command, run_or_fail, compile_executable, build_runtime,
  compile_code, Attempt, write_and_compile, after_translation, attempt, what, caught,
  known_allocator, run_main, main,
}

In-right : (e : Event) (xs ys : Log) → In e ys → In e (xs ++ ys)
In-right e [] ys i = i
In-right e (x ∷ xs) ys i = inr (In-right e xs ys i)

In-left : (e : Event) (xs ys : Log) → In e xs → In e (xs ++ ys)
In-left e [] ys i = absurd i
In-left e (x ∷ xs) ys (inl p) = inl p
In-left e (x ∷ xs) ys (inr i) = inr (In-left e xs ys i)

abbrev translation : Os → Text → Options → Result Text
translation os input o = transpile (o.allocator_type == lit "reference_count") (os.parse input)

-- The input was translated, the text was written to the C file, and the compiler was run on that.
abbrev pub Translated : Os → Text → Options → Log → Type 0
Translated os input o log =
    (code : Text) × (translation os input o ≡ ok code)
    × In (wrote (o.output_name ++ lit ".c") code) log
    × In (ran (compile_command (o.output_name ++ lit ".c") o.output_name)) log

abbrev Attempted : Os → Text → Options → Attempt → Type 0
Attempted os input o (ok _, log) = Translated os input o log
Attempted os input o (throw e, log) = Unit
Attempted os input o (hang, log) = translation os input o ≡ hang
Attempted os input o (terminate, log) = translation os input o ≡ terminate

-- A part of compileCode only adds to the log.
abbrev Keeps : (Log → Bool × Log) → Type 0
Keeps f = (log : Log) (e : Event) → In e log → In e (f log).1

run_or_fail-Keeps :
    (os : Os) (command message : Text) (next : Log → Bool × Log)
    → Keeps next
    → Keeps (run_or_fail os command message next)
unfolding run_or_fail
run_or_fail-Keeps os command message next k log e i =
    elim (Bool-cases (eqb (os.system log command) 0)) [
      | inl y ↦ rw y (k (log ++ (ran command ∷ [])) e (In-left e log (ran command ∷ []) i))
      | inr n ↦ rw n (In-left e log (ran command ∷ complained message ∷ []) i)
    ]

-- Where it succeeds, this command was run.
abbrev Runs : Text → (Log → Bool × Log) → Type 0
Runs command f = (log : Log) → (f log).0 ≡ true → In (ran command) (f log).1

run_or_fail-Runs :
    (os : Os) (command message last : Text) (next : Log → Bool × Log)
    → Runs last next
    → Runs last (run_or_fail os command message next)
unfolding run_or_fail
run_or_fail-Runs os command message last next k log t =
    elim (Bool-cases (eqb (os.system log command) 0)) [
      | inl y ↦ rw y (k (log ++ (ran command ∷ [])) (rw (y, run_or_fail) at t))
      | inr n ↦ absurd (let f : false ≡ true = rw (n, run_or_fail) at t in cc)
    ]

module _ (os : Os) (c_file output allocator : Text) (debug : Bool) where
  compile_executable-Keeps : Keeps (compile_executable os c_file output)
  unfolding compile_executable
  compile_executable-Keeps log e i = In-left e _ _ (In-left e log _ i)

  compile_executable-Runs :
      Runs (compile_command c_file output) (compile_executable os c_file output)
  unfolding compile_executable
  compile_executable-Runs log t =
      let command = compile_command c_file output in
      let log' = log ++ (printed (lit "Compiling with command: " ++ (command ++ lit "\n")) ∷ []) in
      In-right (ran command) log' (ran command ∷ []) (inl refl)

  compile_code-Keeps : Keeps (compile_code os c_file output allocator debug)
  unfolding compile_code build_runtime
  compile_code-Keeps log e i =
      run_or_fail-Keeps os clean_command _ (build_runtime os c_file output allocator debug)
        (λ log' e' j.
          run_or_fail-Keeps os (build_command allocator debug) _
            (compile_executable os c_file output) compile_executable-Keeps _ e'
            (In-left e' log' _ j))
        _ e (In-left e log _ i)

  compile_code-Runs :
      Runs (compile_command c_file output) (compile_code os c_file output allocator debug)
  unfolding compile_code build_runtime
  compile_code-Runs log t =
      run_or_fail-Runs os clean_command _ (compile_command c_file output)
        (build_runtime os c_file output allocator debug)
        (λ log' t'.
          run_or_fail-Runs os (build_command allocator debug) _ (compile_command c_file output)
            (compile_executable os c_file output) compile_executable-Runs _ t')
        _ t

write_and_compile-Attempted :
    (os : Os) (input code : Text) (o : Options) (log : Log)
    → translation os input o ≡ ok code
    → Attempted os input o (write_and_compile os o code log)
unfolding write_and_compile
write_and_compile-Attempted os input code o log t =
    let c_file = o.output_name ++ lit ".c" in
    let written =
      wrote c_file code
      ∷ printed (lit "Successfully generated C code: " ++ (c_file ++ lit "\n"))
      ∷ [] in
    let run = compile_code os c_file o.output_name o.allocator_type o.debug in
    let there = In-right (wrote c_file code) log written (inl refl) in
    elim (Bool-cases (os.creates c_file)) [
      | inr n ↦ rw n tt
      | inl y ↦ elim (Bool-cases (run (log ++ written)).0) [
        | inr n ↦ rw (y, n) tt
        | inl z ↦
            rw (y, z)
              (
                code,
                t,
                In-left (wrote c_file code) (run (log ++ written)).1 _ (
                    compile_code-Keeps os c_file o.output_name o.allocator_type o.debug
                      (log ++ written) (wrote c_file code) there),
                In-left (ran (compile_command c_file o.output_name)) (run (log ++ written)).1 _ (
                    compile_code-Runs os c_file o.output_name o.allocator_type o.debug
                      (log ++ written) z),
              )
      ]
    ]

translated :
    (os : Os) (input : Text) (o : Options) (log : Log) (r : Result Text)
    → translation os input o ≡ r
    → Attempted os input o (after_translation os o log r)
unfolding after_translation
translated os input o log (ok code) e = write_and_compile-Attempted os input code o log e
translated os input o log (throw x) e = tt
translated os input o log hang e = e
translated os input o log terminate e = e

attempt-Attempted :
    (os : Os) (input : Text) (o : Options) (log : Log)
    → Attempted os input o (attempt os input o log)
unfolding attempt after_translation
attempt-Attempted os input o log = elim (Bool-cases (os.file_exists input)) [
  | inr n ↦ rw n tt
  | inl y ↦ elim (Bool-cases (os.file_exists (lit "../runtime/include/runtime.h"))) [
    | inr n ↦ rw (y, n) tt
    | inl z ↦ rw (y, z) (translated os input o log (translation os input o) refl)
  ]
]

-- The ways in which `main` may end, for the options that were read.
abbrev pub Exits : Os → Text → Options → Result (ℕ × Log) → Type 0
Exits os input o (ok (status, log)) =
    ((status ≡ 0) × Translated os input o log)
    ⊎ ((status ≡ 1) × ((message : Text) × In (complained message) log))
Exits os input o (throw e) = ⊥
Exits os input o hang = translation os input o ≡ hang
Exits os input o terminate = translation os input o ≡ terminate

caught-Exits :
    (os : Os) (input : Text) (o : Options) (a : Attempt)
    → Attempted os input o a
    → Exits os input o (caught a)
unfolding caught
caught-Exits os input o (ok _, log) h = inl (refl, h)
caught-Exits os input o (throw e, log) h =
    let message = lit "Error: " ++ (what e ++ lit "\n") in
    inr (refl, (message, In-right (complained message) log (complained message ∷ []) (inl refl)))
caught-Exits os input o (hang, log) h = h
caught-Exits os input o (terminate, log) h = h

run_main-Exits :
    (os : Os) (name input : Text) (o : Options) → Exits os input o (run_main os name input o)
unfolding run_main
run_main-Exits os name input o = elim (Bool-cases (is_empty o.output_name)) [
  | inl y ↦ rw y (inr (refl, (_, inl refl)))
  | inr n ↦ elim (Bool-cases (known_allocator o.allocator_type)) [
    | inr u ↦ rw (n, u) (inr (refl, (_, inl refl)))
    | inl k ↦ rw (n, k) (caught-Exits os input o _ (attempt-Attempted os input o _))
  ]
]

-- For an input file and further arguments `main` returns 0 only after the input was translated, its C
-- text was written to the output name with .c, and the compiler was run on that, or 1 with a message;
-- no exception leaves it, and it does not return only where the translation does not.
pub main-Exits :
    (os : Os) (name input : Text) (rest : List Text)
    → Exits os input (parse_options rest default_options) (main os name (input ∷ rest))
unfolding main usage
main-Exits os name input rest = elim (Bool-cases (ltb (length rest) 2)) [
  | inl few ↦ rw few (inr (refl, (_, inl refl)))
  | inr n ↦ rw n (run_main-Exits os name input (parse_options rest default_options))
]
