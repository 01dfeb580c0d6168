-- ===== src/Visitor/Frames/Classes.antt =====
-- What the first pass over a class declaration (`getClassFromCode` of src/ast/TranspilerVisitor.cpp)
-- does to the class hierarchy.
use jb_transpiler.Base.{
  Text, ◌≡◌, ◌≢◌, refl, sym, ◌∙◌, ap, true, false, is_empty, none, some, List, Result, ok, throw,
  hang, terminate, ok-injective,
}
use jb_transpiler.Base.Map.{find}
use jb_transpiler.Syntax.Tree.{Declarator, ClassMembers}
use jb_transpiler.Types.LangType.{LangType, Fields}
use jb_transpiler.Types.Registry.{TypeSystem, register_class, set_class_parent, set_class_members}
use jb_transpiler.Types.Registry.Classes.{
  declare_derived, declare_derived-IsRooted, declare_derived-Ancestor_self,
}
use jb_transpiler.Types.Hierarchy.Rooted.{IsRooted}
use jb_transpiler.Types.Hierarchy.Subclass.{Ancestor}
use jb_transpiler.Visitor.{
  Visitor, Exec, pure, ◌>>=◌, ◌>>◌, continue, attach, lift, gets, set_types, is_first_pass,
}
use jb_transpiler.Visitor.Declarators.{get_all_declared}
use jb_transpiler.Visitor.Declarations.{
  first_pass_only, update_types, all_declared, set_parent, fields_of, get_class_from_code,
}
use jb_transpiler.Visitor.Keeps.{bind-ok}

-- the end of `getClassFromCode`
abbrev filling : Text → List Declarator → Exec LangType
filling name ds = do
  fields ← all_declared ds
  types ← gets (λ s. s.types)
  (type, types') ← lift (set_class_members types name fields)
  set_types types'
  pure type

registering :
    (name : Text) (s : Visitor)
    → s.first_pass ≡ true
    → first_pass_only (update_types (λ ts. ok (register_class ts name).1)) s
      ≡ ok (tt, record s { types = (register_class s.types name).1 })
unfolding first_pass_only update_types is_first_pass gets lift set_types ◌>>=◌
registering name s first = rw first

linking :
    (name parent : Text) (s t : Visitor) (u : Unit {0})
    → set_parent name (some parent) s ≡ ok (u, t)
    → (linked : LangType × TypeSystem) × (set_class_parent s.types name parent ≡ ok linked)
      × (t ≡ record s { types = linked.1 })
unfolding set_parent gets lift set_types ◌>>=◌
linking name parent s t u h = go (set_class_parent s.types name parent) refl h
  where
    go :
        (r : Result (LangType × TypeSystem))
        → set_class_parent s.types name parent ≡ r
        → continue (attach s r) (λ linked. set_types linked.1) ≡ ok (u, t)
        → (linked : LangType × TypeSystem) × (set_class_parent s.types name parent ≡ ok linked)
          × (t ≡ record s { types = linked.1 })
    go (ok linked) e k = (linked, e, sym (ap (λ p. p.1) (ok-injective k)))
    go (throw x) e k = cc
    go hang e k = cc
    go terminate e k = cc

filling_sets :
    (name : Text) (ds : List Declarator) (s t : Visitor) (type : LangType)
    → filling name ds s ≡ ok (type, t)
    → (fields : Fields) × (filled : LangType × TypeSystem) × (set_class_members s.types name fields
        ≡ ok filled)
      × (t.types ≡ filled.1)
unfolding all_declared gets lift set_types pure ◌>>=◌ ◌>>◌
filling_sets name ds s t type h = go (get_all_declared s.types ds) h
  where
    set :
        (fields : Fields) (r : Result (LangType × TypeSystem))
        → set_class_members s.types name fields ≡ r
        → continue (attach s r) (λ filled. set_types filled.1 >> pure filled.0) ≡ ok (type, t)
        → (fields : Fields) × (filled : LangType × TypeSystem) × (set_class_members s.types name
              fields
            ≡ ok filled)
          × (t.types ≡ filled.1)
    set fields (ok filled) e k = (fields, filled, e, sym (ap (λ p. p.1.types) (ok-injective k)))
    set fields (throw x) e k = cc
    set fields hang e k = cc
    set fields terminate e k = cc

    go :
        (r : Result Fields)
        → continue (attach s r) (λ fields. gets (λ s. s.types) >>= λ types.
            lift (set_class_members types name fields) >>= λ filled.
            set_types filled.1 >> pure filled.0)
          ≡ ok (type, t)
        → (fields : Fields) × (filled : LangType × TypeSystem) × (set_class_members s.types name
              fields
            ≡ ok filled)
          × (t.types ≡ filled.1)
    go (ok fields) k = set fields (set_class_members s.types name fields) refl k
    go (throw x) k = cc
    go hang k = cc
    go terminate k = cc

derived :
    (ts : TypeSystem) (name parent : Text) (fields : Fields) (linked filled : LangType × TypeSystem)
    → set_class_parent (register_class ts name).1 name parent ≡ ok linked
    → set_class_members linked.1 name fields ≡ ok filled
    → declare_derived ts name parent fields ≡ ok filled.1
unfolding declare_derived
derived ts name parent fields linked filled e f = rw e (rw f refl)

-- In the first pass `getClassFromCode` for a class with a parent, where it returns, has made the
-- calls of `declare_derived`.
get_class_from_code-declares :
    (name parent : Text) (ms : ClassMembers) (s s' : Visitor) (type : LangType)
    → s.first_pass ≡ true
    → get_class_from_code name (some parent) ms s ≡ ok (type, s')
    → (fields : Fields) × (declare_derived s.types name parent fields ≡ ok s'.types)
unfolding get_class_from_code ◌>>◌
get_class_from_code-declares name parent ms s s' type first h =
    let (u, t, ran, after) =
      bind-ok (first_pass_only (update_types (λ ts. ok (register_class ts name).1)))
        (λ _. set_parent name (some parent) >> filling name (fields_of ms)) s s' type h in
    let registered = ap (λ p. p.1.types) (ok-injective (sym (registering name s first) ∙ ran)) in
    let (v, t', ran', after') =
      bind-ok (set_parent name (some parent)) (λ _. filling name (fields_of ms)) t s' type after in
    let (linked, links, state) = linking name parent t t' v ran' in
    let (fields, filled, fills, final) = filling_sets name (fields_of ms) t' s' type after' in
    (
      fields,
      derived s.types name parent fields linked filled
            (ap (λ ts. set_class_parent ts name parent) registered ∙ links)
            (ap (λ w. set_class_members w.types name fields) (sym state) ∙ fills)
          ∙ ap ok (sym final),
    )

-- In the first pass getClassFromCode, which registers a class and sets its parent and its fields, keeps
-- a well-formed hierarchy well formed, where it returns, for a class that is not registered and has
-- another class as its parent. The bodies of its methods are not part of this step.
pub get_class_from_code-IsRooted :
    (name parent : Text) (ms : ClassMembers) (s s' : Visitor) (type : LangType)
    → IsRooted s.types.classes
    → find name s.types.classes ≡ none
    → name ≢ parent
    → s.first_pass ≡ true
    → get_class_from_code name (some parent) ms s ≡ ok (type, s')
    → IsRooted s'.types.classes
get_class_from_code-IsRooted name parent ms s s' type rooted new ne first h =
    let (fields, declares) = get_class_from_code-declares name parent ms s s' type first h in
    declare_derived-IsRooted s.types s'.types name parent fields rooted new ne declares

-- In the first pass getClassFromCode, for a class that is declared as its own parent under a name that
-- is not empty, makes the class its own ancestor, where it returns. The bodies of its methods are not
-- part of this step.
pub get_class_from_code-Ancestor :
    (name : Text) (ms : ClassMembers) (s s' : Visitor) (type : LangType)
    → is_empty name ≡ false
    → s.first_pass ≡ true
    → get_class_from_code name (some name) ms s ≡ ok (type, s')
    → Ancestor s'.types.classes name name
get_class_from_code-Ancestor name ms s s' type filled first h =
    let (fields, declares) = get_class_from_code-declares name name ms s s' type first h in
    declare_derived-Ancestor_self s.types s'.types name fields filled declares
