-- ===== src/Visitor/Keeps.antt =====
-- Relations between the state before an action and the one after it, with one rule for each way to
-- build an action.
pub mod Parts
pub mod Writing
use jb_transpiler.Base.{
  Text, ◌≡◌, refl, ap, Bool, true, false, Option, none, some, ◌++◌, ◌+◌, Result, ok, throw, hang,
  terminate, if◌then◌else◌, Exception, ok-injective,
}
use jb_transpiler.Symbols.{get_indent_level, lookup_symbol}
use jb_transpiler.Visitor.{
  Visitor, Exec, pure, ◌>>=◌, ◌>>◌, continue, raise, crash, lift, gets, modify, emit, skip,
  is_first_pass, indent_level, find_variable,
}
use jb_transpiler.Visitor.Steps.{by_option, when_some}

pub record IsFrame (R : Visitor → Visitor → Type 0) : Type 0 where
  pub still : (s : Visitor) → R s s
  pub compose : (s t u : Visitor) → R s t → R t u → R s u

-- The changes that the visit of an expression makes.
pub record Writes (R : Visitor → Visitor → Type 0) : Type 0 where
  pub frame : IsFrame R
  pub output : (s : Visitor) (text : Text) → R s (record s { output = s.output ++ text })
  pub counter : (s : Visitor) → R s (record s { temp_var_counter = s.temp_var_counter + 1 })

-- Where `m` returns, the states before and after it are related.
pub record Keeps {A : Type 0} (R : Visitor → Visitor → Type 0) (m : Exec A) : Type 0 where
  pub at : (s s' : Visitor) (a : A) → m s ≡ ok (a, s') → R s s'

-- the state that an action leads to
pub leads :
    {A : Type 0} (R : Visitor → Visitor → Type 0) (s t s' : Visitor) (a b : A)
    → R s t
    → pure b t ≡ ok (a, s')
    → R s s'
unfolding pure
leads R s t s' a b r h = rw (← ap (λ p. p.1) (ok-injective h)) r

-- Inversion of a block that returns.
pub bind-ok :
    {A B : Type 0} (m : Exec A) (f : A → Exec B) (s s' : Visitor) (b : B)
    → (m >>= f) s ≡ ok (b, s')
    → (a : A) × (t : Visitor) × (m s ≡ ok (a, t)) × (f a t ≡ ok (b, s'))
unfolding ◌>>=◌
bind-ok {A} {B} m f s s' b h = go (m s) h
  where
    go :
        (r : Result (A × Visitor))
        → continue r f ≡ ok (b, s')
        → (a : A) × (t : Visitor) × (r ≡ ok (a, t)) × (f a t ≡ ok (b, s'))
    go (ok (a, t)) e = (a, t, refl, e)
    go (throw x) e = cc
    go hang e = cc
    go terminate e = cc

module _ {A : Type 0} {R : Visitor → Visitor → Type 0} where
  still_at : (fr : IsFrame R) (s s' : Visitor) (a b : A) → pure b s ≡ ok (a, s') → R s s'
  still_at fr s s' a b h = leads R s s s' a b (fr.still s) h

  pub Keeps-pure : IsFrame R → (a : A) → Keeps R (pure a)
  unfolding pure
  Keeps-pure fr a = record { at = λ s s' b h. still_at fr s s' b a h }

  pub Keeps-raise : (e : Exception) → Keeps {A = A} R (raise e)
  unfolding raise
  Keeps-raise e = record { at = λ s s' b h. cc }

  pub Keeps-crash : Keeps {A = A} R crash
  unfolding crash
  Keeps-crash = record { at = λ s s' b h. cc }

  pub Keeps-lift : IsFrame R → (r : Result A) → Keeps R (lift r)
  unfolding lift pure
  Keeps-lift fr (ok a) = record { at = λ s s' b h. still_at fr s s' b a h }
  Keeps-lift fr (throw e) = record { at = λ s s' b h. cc }
  Keeps-lift fr hang = record { at = λ s s' b h. cc }
  Keeps-lift fr terminate = record { at = λ s s' b h. cc }

  pub Keeps-gets : IsFrame R → (f : Visitor → A) → Keeps R (gets f)
  unfolding gets pure
  Keeps-gets fr f = record { at = λ s s' b h. still_at fr s s' b (f s) h }

  pub Keeps-if :
      (b : Bool) (m n : Exec A)
      → (b ≡ true → Keeps R m)
      → (b ≡ false → Keeps R n)
      → Keeps R (if b then m else n)
  Keeps-if true m n km kn = km refl
  Keeps-if false m n _ kn = kn refl

module _ {A B : Type 0} {R : Visitor → Visitor → Type 0} where
  pub Keeps-bind :
      (m : Exec A) (f : A → Exec B)
      → IsFrame R
      → Keeps R m
      → ((a : A) → Keeps R (f a))
      → Keeps R (m >>= f)
  unfolding ◌>>=◌
  Keeps-bind m f fr km kf = record { at = λ s s' b h. go s s' b (m s) refl h }
    where
      go :
          (s s' : Visitor) (b : B) (r : Result (A × Visitor))
          → m s ≡ r
          → continue r f ≡ ok (b, s')
          → R s s'
      go s s' b (ok (a, t)) e h = fr.compose s t s' (km.at s t a e) ((kf a).at t s' b h)
      go s s' b (throw x) e h = cc
      go s s' b hang e h = cc
      go s s' b terminate e h = cc

  pub Keeps-by_option :
      (o : Option A) (m : Exec B) (f : A → Exec B)
      → Keeps R m
      → ((a : A) → Keeps R (f a))
      → Keeps R (by_option o m f)
  unfolding by_option
  Keeps-by_option none m f km kf = km
  Keeps-by_option (some a) m f km kf = kf a

module _ {B : Type 0} {R : Visitor → Visitor → Type 0} where
  pub Keeps-then :
      (m : Exec (Unit {0})) (n : Exec B) → IsFrame R → Keeps R m → Keeps R n → Keeps R (m >> n)
  unfolding ◌>>◌
  Keeps-then m n fr km kn = Keeps-bind m (λ _. n) fr km (λ _. kn)

module _ {R : Visitor → Visitor → Type 0} where
  pub Keeps-skip : IsFrame R → Keeps R skip
  unfolding skip pure
  Keeps-skip fr = record { at = λ s s' b h. still_at fr s s' b tt h }

  pub Keeps-is_first_pass : IsFrame R → Keeps R is_first_pass
  unfolding is_first_pass pure
  Keeps-is_first_pass fr = record { at = λ s s' b h. still_at fr s s' b s.first_pass h }

  pub Keeps-indent_level : IsFrame R → Keeps R indent_level
  unfolding indent_level pure
  Keeps-indent_level fr = record {
    at = λ s s' b h. still_at fr s s' b (get_indent_level s.symbols) h;
  }

  pub Keeps-find_variable : (name : Text) → IsFrame R → Keeps R (find_variable name)
  unfolding find_variable pure
  Keeps-find_variable name fr = record {
    at = λ s s' b h. still_at fr s s' b (lookup_symbol s.symbols name) h;
  }

  pub Keeps-when_some :
      {A : Type 0} (o : Option A) (f : A → Exec (Unit {0}))
      → IsFrame R
      → ((a : A) → Keeps R (f a))
      → Keeps R (when_some o f)
  unfolding when_some
  Keeps-when_some none f fr kf = Keeps-skip fr
  Keeps-when_some (some a) f fr kf = kf a

  pub Keeps-emit : Writes R → (text : Text) → Keeps R (emit text)
  unfolding emit pure
  Keeps-emit w text = record {
    at = λ s s' b h. leads R s (record s { output = s.output ++ text }) s' b tt (w.output s text) h;
  }

  pub Keeps-count :
      Writes R → Keeps R (modify (λ s. record s { temp_var_counter = s.temp_var_counter + 1 }))
  unfolding modify pure
  Keeps-count w = record {
    at = λ s s' b h.
        leads R s (record s { temp_var_counter = s.temp_var_counter + 1 }) s' b tt (w.counter s) h;
  }

pub ruleset keeps_rules = (
  Keeps-pure, Keeps-raise, Keeps-crash, Keeps-lift, Keeps-gets, Keeps-if, Keeps-bind, Keeps-then,
  Keeps-by_option, Keeps-skip, Keeps-is_first_pass, Keeps-indent_level, Keeps-find_variable,
  Keeps-when_some, Keeps-emit,
)
