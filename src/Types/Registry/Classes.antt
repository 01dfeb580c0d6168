-- ===== src/Types/Registry/Classes.antt =====
-- The declaration of a class (`getClassFromCode` of src/ast/TranspilerVisitor.cpp, which calls
-- `registerClass`, `setClassParent` and `setClassMembers` of src/types/TypeSystem.cpp) and the
-- hierarchy that it makes.
use jb_transpiler.Base.{
  Text, ◌≡◌, ◌≢◌, refl, sym, ◌∙◌, ap, false, Option, none, some, Result, ok, ◌>>=◌, ok-injective,
  if◌then◌else◌, arith, is_empty, not,
}
use jb_transpiler.Base.Map.{Map, find, insert}
use jb_transpiler.Base.Map.Laws.{find-insert_self, find-insert_ne, insert-insert}
use jb_transpiler.Types.LangType.{
  LangType, class, Fields, simple_type, set_struct, set_parent_class, set_struct_members,
  has_parent, parent_class-set_struct_members,
}
use jb_transpiler.Types.Registry.{
  TypeSystem, register_class, set_class_parent, set_class_members, set_class_parent_found,
  set_class_members_found,
}
use jb_transpiler.Types.Hierarchy.Rooted.{
  IsRooted, parent_in, parent_of, insert_new-IsRooted, insert_old-IsRooted,
}
use jb_transpiler.Types.Hierarchy.Subclass.{Ancestor}

-- The calls of `getClassFromCode` for a class with a parent, in the first pass.
unfoldable pub declare_derived : TypeSystem → Text → Text → Fields → Result TypeSystem
declare_derived ts name parent fields =
    set_class_parent (register_class ts name).1 name parent >>= λ linked.
    set_class_members linked.1 name fields >>= λ filled. ok filled.1

-- The type of the class before its members are set.
abbrev derived_type : Text → Text → LangType
derived_type name parent = set_parent_class parent (set_struct name (simple_type class))

abbrev type_or : LangType → Option LangType → LangType
type_or d none = d
type_or d (some t) = t

abbrev registered : TypeSystem → Text → Map LangType
registered ts name = insert name (set_struct name (simple_type class)) ts.classes

-- A declaration that succeeds names a parent that is registered, or the class itself, and stores
-- the class with that parent.
declared_classes :
    (ts ts' : TypeSystem) (name parent : Text) (fields : Fields)
    → declare_derived ts name parent fields ≡ ok ts'
    → (t : LangType) × (find parent (registered ts name) ≡ some t)
      × (ts'.classes
          ≡ insert name
              (set_struct_members fields (derived_type name parent))
              (insert name (derived_type name parent) ts.classes))
unfolding declare_derived register_class set_class_parent set_class_members set_class_members_found
    set_class_parent_found
declared_classes ts ts' name parent fields h =
    linked (find parent (registered ts name)) refl
      (rw (find-insert_self name (set_struct name (simple_type class)) ts.classes) at h)
  where
    -- after `setClassParent`
    ts2 : TypeSystem
    ts2 = record ts { classes = insert name (derived_type name parent) (registered ts name) }

    filled :
        (o : Option LangType)
        → o ≡ some (derived_type name parent)
        → (set_class_members_found ts2 name fields o >>= λ filled. ok filled.1) ≡ ok ts'
        → ts'.classes
          ≡ insert name (set_struct_members fields (derived_type name parent)) (ts2.classes)
    filled none e k = cc
    filled (some t) e k =
        sym (ap (λ u. u.classes) (ok-injective k))
        ∙ ap (λ o. insert name (set_struct_members fields (type_or t o)) ts2.classes) e

    linked :
        (o : Option LangType)
        → find parent (registered ts name) ≡ o
        → (set_class_parent_found
              (record ts { classes = registered ts name })
              name
              parent
              (some (set_struct name (simple_type class)))
              o
            >>= λ linked.
                set_class_members_found linked.1 name fields (find name linked.1.classes)
                >>= λ filled. ok filled.1)
          ≡ ok ts'
        → (t : LangType) × (find parent (registered ts name) ≡ some t)
          × (ts'.classes
              ≡ insert name
                  (set_struct_members fields (derived_type name parent))
                  (insert name (derived_type name parent) ts.classes))
    linked none e k = cc
    linked (some t) e k = (
      t,
      e,
      filled (find name ts2.classes)
            (find-insert_self name (derived_type name parent) (registered ts name)) k
          ∙ ap (insert name (set_struct_members fields (derived_type name parent))) (
              insert-insert name (set_struct name (simple_type class)) (derived_type name parent)
                ts.classes),
    )

-- The parent that the stored type has.
parent_of-declared :
    (m : Map LangType) (name parent : Text) (fields : Fields)
    → parent_of (insert name (set_struct_members fields (derived_type name parent)) m) name
      ≡ (if has_parent (derived_type name parent) then some parent else none)
unfolding parent_of
parent_of-declared m name parent fields =
    ap parent_in (find-insert_self name (set_struct_members fields (derived_type name parent)) m)
    ∙ ap (λ q. if not (is_empty q) then some q else none)
        (parent_class-set_struct_members fields (derived_type name parent))

-- Declaring a new class that derives from another one keeps a hierarchy well formed.
pub declare_derived-IsRooted :
    (ts ts' : TypeSystem) (name parent : Text) (fields : Fields)
    → IsRooted ts.classes
    → find name ts.classes ≡ none
    → name ≢ parent
    → declare_derived ts name parent fields ≡ ok ts'
    → IsRooted ts'.classes
declare_derived-IsRooted ts ts' name parent fields rooted new ne h =
    let (t, found, classes) = declared_classes ts ts' name parent fields h in
    let known =
      sym (find-insert_ne name parent (set_struct name (simple_type class)) ts.classes ne)
      ∙ found in
    rw classes (
      insert_old-IsRooted (insert name (derived_type name parent) ts.classes) name
        (derived_type name parent) (set_struct_members fields (derived_type name parent))
        (find-insert_self name (derived_type name parent) ts.classes)
        (parent_class-set_struct_members fields (derived_type name parent))
        (insert_new-IsRooted ts.classes name (derived_type name parent) new rooted
          (λ p e. (t, ap (λ q. find q ts.classes) (parent_is p e) ∙ known))))
  where
    parent_is : (p : Text) → parent_in (some (derived_type name parent)) ≡ some p → p ≡ parent
    parent_is p e = ground (arith, e)

-- A class that is declared as its own parent is accepted, registered or not before, and is then its
-- own ancestor.
pub declare_derived-Ancestor_self :
    (ts ts' : TypeSystem) (name : Text) (fields : Fields)
    → is_empty name ≡ false
    → declare_derived ts name name fields ≡ ok ts'
    → Ancestor ts'.classes name name
declare_derived-Ancestor_self ts ts' name fields filled h =
    let (t, found, classes) = declared_classes ts ts' name name fields h in
    rw classes (
      Ancestor.parent (
        parent_of-declared (insert name (derived_type name name) ts.classes) name name fields
        ∙ rw filled))
