-- ===== src/Visitor/Frames.antt =====
-- What the visits leave as it was: the relations that they keep, instances of `Keeps`.
pub mod Exprs
pub mod Tables
pub mod Blocks
pub mod Decls
pub mod Stmts
pub mod Classes
pub mod FirstPass
pub mod Scopes
pub mod Depth
pub mod Whole
pub mod Printed
use Prim.Native.Nat.{suc}
use jb_transpiler.Base.{
  ℕ, ◌≤◌, ◌+◌, Text, ◌≡◌, refl, sym, ◌∙◌, ap, Bool, true, List, [], ◌++◌, append_assoc, append-nil,
  arith, length,
}
use jb_transpiler.Base.Map.{Map}
use jb_transpiler.Symbols.{SymbolTable, Variable, exit_scope}
use jb_transpiler.Types.Registry.{TypeSystem}
use jb_transpiler.Visitor.{Visitor}
use jb_transpiler.Visitor.Keeps.{IsFrame, Writes}

-- The output of `t` starts with that of `s`.
abbrev pub Grows : Visitor → Visitor → Type 0
Grows s t = (rest : Text) × (t.output ≡ s.output ++ rest)

pub Grows-still : (s : Visitor) → Grows s s
Grows-still s = ([], sym (append-nil s.output))

pub Grows-compose : (s t u : Visitor) → Grows s t → Grows t u → Grows s u
Grows-compose s t u (a, g) (b, h) = (a ++ b, h ∙ ap (λ o. o ++ b) g ∙ append_assoc s.output a b)

-- Only the output, which grows, and the count of temporaries, which does not fall, may differ.
pub record OnlyWrites (s t : Visitor) : Type 0 where
  pub use_ref_counts : t.use_ref_counts ≡ s.use_ref_counts
  pub symbols : t.symbols ≡ s.symbols
  pub types : t.types ≡ s.types
  pub first_pass : t.first_pass ≡ s.first_pass
  pub add_ref_counts : t.add_ref_counts ≡ s.add_ref_counts
  pub class_names : t.class_names ≡ s.class_names
  pub output : Grows s t
  pub temp_var_counter : s.temp_var_counter ≤ t.temp_var_counter

pub OnlyWrites-IsFrame : IsFrame OnlyWrites
OnlyWrites-IsFrame = record {
  still = λ s. record {
    use_ref_counts = refl;
    symbols = refl;
    types = refl;
    first_pass = refl;
    add_ref_counts = refl;
    class_names = refl;
    output = Grows-still s;
    temp_var_counter = omega arith;
  };
  compose = λ s t u a b. record {
    use_ref_counts = b.use_ref_counts ∙ a.use_ref_counts;
    symbols = b.symbols ∙ a.symbols;
    types = b.types ∙ a.types;
    first_pass = b.first_pass ∙ a.first_pass;
    add_ref_counts = b.add_ref_counts ∙ a.add_ref_counts;
    class_names = b.class_names ∙ a.class_names;
    output = Grows-compose s t u a.output b.output;
    temp_var_counter = omega (arith, a.temp_var_counter, b.temp_var_counter);
  };
}

pub OnlyWrites-Writes : Writes OnlyWrites
OnlyWrites-Writes = record {
  frame = OnlyWrites-IsFrame;
  output = λ s text. record {
    use_ref_counts = refl;
    symbols = refl;
    types = refl;
    first_pass = refl;
    add_ref_counts = refl;
    class_names = refl;
    output = (text, refl);
    temp_var_counter = omega arith;
  };
  counter = λ s. record {
    use_ref_counts = refl;
    symbols = refl;
    types = refl;
    first_pass = refl;
    add_ref_counts = refl;
    class_names = refl;
    output = Grows-still s;
    temp_var_counter = omega arith;
  };
}

-- The scopes around the innermost one are as they were, and as many; the pass and the kind of the
-- allocator are the same; the output has grown; counting references is on again if it was on.
pub record KeepsScopes (s t : Visitor) : Type 0 where
  pub outer : (exit_scope t.symbols).scopes ≡ (exit_scope s.symbols).scopes
  pub depth : length t.symbols.scopes ≡ length s.symbols.scopes
  pub use_ref_counts : t.use_ref_counts ≡ s.use_ref_counts
  pub first_pass : t.first_pass ≡ s.first_pass
  pub add_ref_counts : s.add_ref_counts ≡ true → t.add_ref_counts ≡ true
  pub output : Grows s t
  pub temp_var_counter : s.temp_var_counter ≤ t.temp_var_counter

pub OnlyWrites-KeepsScopes : (s t : Visitor) → OnlyWrites s t → KeepsScopes s t
OnlyWrites-KeepsScopes s t w = record {
  outer = ap (λ symbols. (exit_scope symbols).scopes) w.symbols;
  depth = ap (λ symbols. length symbols.scopes) w.symbols;
  use_ref_counts = w.use_ref_counts;
  first_pass = w.first_pass;
  add_ref_counts = λ h. w.add_ref_counts ∙ h;
  output = w.output;
  temp_var_counter = w.temp_var_counter;
}

pub KeepsScopes-IsFrame : IsFrame KeepsScopes
KeepsScopes-IsFrame = record {
  still = λ s. OnlyWrites-KeepsScopes s s (OnlyWrites-IsFrame.still s);
  compose = λ s t u a b. record {
    outer = b.outer ∙ a.outer;
    depth = b.depth ∙ a.depth;
    use_ref_counts = b.use_ref_counts ∙ a.use_ref_counts;
    first_pass = b.first_pass ∙ a.first_pass;
    add_ref_counts = λ h. b.add_ref_counts (a.add_ref_counts h);
    output = Grows-compose s t u a.output b.output;
    temp_var_counter = omega (arith, a.temp_var_counter, b.temp_var_counter);
  };
}

pub KeepsScopes-Writes : Writes KeepsScopes
KeepsScopes-Writes = record {
  frame = KeepsScopes-IsFrame;
  output = λ s text. OnlyWrites-KeepsScopes s _ (OnlyWrites-Writes.output s text);
  counter = λ s. OnlyWrites-KeepsScopes s _ (OnlyWrites-Writes.counter s);
}
