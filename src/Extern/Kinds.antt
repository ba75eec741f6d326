-- ===== src/Extern/Kinds.antt =====
-- An `Extern` and the accessors of its four kinds.
use wasmtime_go.Base.{ℕ, ◌≡◌, refl, Bool, true, false, some, arith}
use wasmtime_go.Go.Value.{CFunc}
use wasmtime_go.Extern.{
  ExternKind, Item, CExtern, Got, nil, got, extern_func, extern_global, extern_memory, extern_table,
  get_func,
}

-- The member that was written last is the one that the kind names.
abbrev pub kept_by : ExternKind → Item → Bool
kept_by ExternKind.func (Item.func f) = true
kept_by ExternKind.global (Item.global g) = true
kept_by ExternKind.memory (Item.memory m) = true
kept_by ExternKind.table (Item.table t) = true
kept_by (ExternKind.other n) (Item.other m) = true
kept_by _ _ = false

-- The item as a function, a global, a memory or a table, nil if it is something else.
abbrev pub as_func : Item → Got CFunc
as_func (Item.func f) = got f
as_func _ = nil

abbrev pub as_global : Item → Got ℕ
as_global (Item.global g) = got g
as_global _ = nil

abbrev pub as_memory : Item → Got ℕ
as_memory (Item.memory m) = got m
as_memory _ = nil

abbrev pub as_table : Item → Got ℕ
as_table (Item.table t) = got t
as_table _ = nil

-- If the union of an `Extern` holds the member that its kind names, then `Func`, `Global`, `Memory` and
-- `Table` return the item if it is of their kind, and nil otherwise, and none reads another member.
-- `GetFunc` returns for an export with this value what `Func` returns.
pub extern_accessors_lem :
    (kind : ExternKind) (item : Item)
    → kept_by kind item ≡ true
    → let e : CExtern = record { kind = kind; of = item } in
      (extern_func e ≡ as_func item)
      × (extern_global e ≡ as_global item)
      × (extern_memory e ≡ as_memory item)
      × (extern_table e ≡ as_table item)
      × (get_func (some e) ≡ as_func item)
unfolding extern_func extern_global extern_memory extern_table get_func
extern_accessors_lem ExternKind.func (Item.func f) h = (refl, refl, refl, refl, refl)
extern_accessors_lem ExternKind.global (Item.global g) h = (refl, refl, refl, refl, refl)
extern_accessors_lem ExternKind.memory (Item.memory m) h = (refl, refl, refl, refl, refl)
extern_accessors_lem ExternKind.table (Item.table t) h = (refl, refl, refl, refl, refl)
extern_accessors_lem (ExternKind.other n) (Item.other m) h = (refl, refl, refl, refl, refl)
extern_accessors_lem kind item h = absurd (ground arith)
