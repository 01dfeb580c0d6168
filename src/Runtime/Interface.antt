-- ===== src/Runtime/Interface.antt =====
-- RuntimeAllocator of runtime/include/allocator_interface.h, and runtime/src/runtime.c, which calls
-- it. An entry that may be null is an Option.
use jb_transpiler.Base.{ℕ, Text, Option, none, some, List, [], ◌∷◌}
use jb_transpiler.Runtime.Machine.{Outcome, done, fault, ◌>>=◌, AllocatorStats}

-- `S` is the allocator's statics and the memory that it manages.
pub record RuntimeAllocator (S : Type 0) : Type 0 where
  pub name : Text
  pub alloc : ℕ → S → Outcome (ℕ × S)
  pub dealloc : ℕ → S → Outcome S
  pub gc : Option (S → Outcome S)
  pub scope_end : Option (S → Outcome S)
  pub get_stats : S → AllocatorStats
  pub init : S → S
  pub shutdown : S → Outcome S
  pub inc_ref_count : Option (ℕ → ℕ → S → Outcome S)
  pub dec_ref_count : Option (ℕ → ℕ → S → Outcome S)
  pub set_gc_threshold : Option (ℕ → S → Outcome S)
  pub register_root : Option (ℕ → S → Outcome S)

-- `current` is the static `current_allocator`.
pub record Runtime (S : Type 0) : Type 0 where
  pub current : Option (RuntimeAllocator S)
  pub heap : S

-- What is left to do at an entry, with the heap.
abbrev pub call : {S : Type 0} → Option (S → Outcome S) → Runtime S → Outcome (Runtime S)
call none r = done r
call (some f) r = f r.heap >>= λ s. done (record r { heap = s })

abbrev pub applied : {A B : Type 0} → Option (A → B) → A → Option B
applied none a = none
applied (some f) a = some (f a)

module _ {S : Type 0} where
  -- `if (current_allocator && current_allocator->entry) current_allocator->entry(...)`
  abbrev pub guarded :
      (RuntimeAllocator S → Option (S → Outcome S)) → Runtime S → Outcome (Runtime S)
  guarded entry r = elim r.current [ none ↦ done r | some a ↦ call (entry a) r ]

  -- The same without the test of `current_allocator`.
  abbrev pub unguarded :
      (RuntimeAllocator S → Option (S → Outcome S)) → Runtime S → Outcome (Runtime S)
  unguarded entry r = elim r.current [ none ↦ fault | some a ↦ call (entry a) r ]

  -- The argument is what get_allocator_implementation returns.
  unfoldable pub runtime_init : RuntimeAllocator S → Runtime S → Runtime S
  runtime_init implementation r = record {
    current = some implementation;
    heap = implementation.init r.heap;
  }

  unfoldable pub runtime_shutdown : Runtime S → Outcome (Runtime S)
  runtime_shutdown r = elim r.current [
    | none ↦ done r
    | some a ↦ a.shutdown r.heap >>= λ s. done (record { current = none; heap = s })
  ]

  unfoldable pub runtime_alloc : ℕ → Runtime S → Outcome (ℕ × Runtime S)
  runtime_alloc bytes r = elim r.current [
    | none ↦ done (0, r)
    | some a ↦ a.alloc bytes r.heap >>= λ out. done (out.0, record r { heap = out.1 })
  ]

  unfoldable pub runtime_scope_end : Runtime S → Outcome (Runtime S)
  runtime_scope_end r = guarded (λ a. a.scope_end) r

  unfoldable pub runtime_gc : Runtime S → Outcome (Runtime S)
  runtime_gc r = guarded (λ a. a.gc) r

  unfoldable pub runtime_set_gc_threshold : ℕ → Runtime S → Outcome (Runtime S)
  runtime_set_gc_threshold threshold r = guarded (λ a. applied a.set_gc_threshold threshold) r

  unfoldable pub runtime_register_root : ℕ → Runtime S → Outcome (Runtime S)
  runtime_register_root ptr r = guarded (λ a. applied a.register_root ptr) r

  unfoldable pub runtime_get_allocator_name : Runtime S → Outcome Text
  runtime_get_allocator_name r = elim r.current [ none ↦ fault | some a ↦ done a.name ]

  unfoldable pub runtime_get_stats : Runtime S → Outcome AllocatorStats
  runtime_get_stats r = elim r.current [ none ↦ fault | some a ↦ done (a.get_stats r.heap) ]

  unfoldable pub runtime_inc_ref_count : ℕ → ℕ → Runtime S → Outcome (Runtime S)
  runtime_inc_ref_count ptr other r = unguarded (λ a. applied (applied a.inc_ref_count ptr) other) r

  unfoldable pub runtime_dec_ref_count : ℕ → ℕ → Runtime S → Outcome (Runtime S)
  runtime_dec_ref_count ptr offset r =
      unguarded (λ a. applied (applied a.dec_ref_count ptr) offset) r

  -- The start of a translated `main`: a root for each global pointer.
  unfoldable pub register_roots : List ℕ → Runtime S → Outcome (Runtime S)
  register_roots [] r = done r
  register_roots (p ∷ ps) r = runtime_register_root p r >>= register_roots ps
