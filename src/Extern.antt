-- ===== src/Extern.antt =====
-- extern.go, and what hands an item out as an `Extern`: AsExtern of func.go, global.go, memory.go and
-- table.go, and the lookups of instance.go and func.go.
pub mod Kinds
pub mod Exports
use mathlib.Core.Option
use wasmtime_go.Base.{zero, suc, ◌+◌, List, [], ◌∷◌, ℕ, Option, none, some, get_elem?}
use wasmtime_go.Go.Value.{CFunc}
use wasmtime_go.Go.Outcome.{Exec, return, gets, or_nil, ◌>>=◌}
use wasmtime_go.World.{World}
use wasmtime_go.Store.{Storelike, context}

-- The constants WASMTIME_EXTERN_FUNC and so on, which `wasmtime_extern_t.kind` holds.
pub data ExternKind : Type 0 where
  func global memory table : ExternKind
  other : ℕ → ExternKind

-- The union of `wasmtime_extern_t`, as the member that was written last; a global, a memory or a table
-- is a number here.
pub data Item : Type 0 where
  func : CFunc → Item
  global memory table other : ℕ → Item

-- wasmtime_extern_t
pub record CExtern : Type 0 where
  pub kind : ExternKind
  pub of : Item

-- The AsExtern methods.
abbrev pub func_as_extern : CFunc → CExtern
func_as_extern f = record { kind = ExternKind.func; of = Item.func f }

abbrev pub global_as_extern : ℕ → CExtern
global_as_extern g = record { kind = ExternKind.global; of = Item.global g }

abbrev pub memory_as_extern : ℕ → CExtern
memory_as_extern m = record { kind = ExternKind.memory; of = Item.memory m }

abbrev pub table_as_extern : ℕ → CExtern
table_as_extern t = record { kind = ExternKind.table; of = Item.table t }

-- go_wasmtime_extern_func_get and so on; none for a member that is not the one written last
func_get : Item → Option CFunc
func_get (Item.func f) = some f
func_get _ = none

global_get : Item → Option ℕ
global_get (Item.global g) = some g
global_get _ = none

memory_get : Item → Option ℕ
memory_get (Item.memory m) = some m
memory_get _ = none

table_get : Item → Option ℕ
table_get (Item.table t) = some t
table_get _ = none

-- What an accessor of `Extern` returns: nil, or the item, if the union is read by its kind.
pub data Got (A : Type 0) : Type 0 where
  nil unspecified : Got A
  got : A → Got A

abbrev pub read : {A : Type 0} → Option A → Got A
read none = unspecified
read (some a) = got a

-- The test of the kind, and the read that follows it.
func_at : ExternKind → Item → Got CFunc
func_at ExternKind.func item = read (func_get item)
func_at _ item = nil

global_at : ExternKind → Item → Got ℕ
global_at ExternKind.global item = read (global_get item)
global_at _ item = nil

memory_at : ExternKind → Item → Got ℕ
memory_at ExternKind.memory item = read (memory_get item)
memory_at _ item = nil

table_at : ExternKind → Item → Got ℕ
table_at ExternKind.table item = read (table_get item)
table_at _ item = nil

-- Extern.Func, Global, Memory and Table
unfoldable pub extern_func : CExtern → Got CFunc
unfolding func_at func_get
extern_func e = func_at e.kind e.of

unfoldable pub extern_global : CExtern → Got ℕ
unfolding global_at global_get
extern_global e = global_at e.kind e.of

unfoldable pub extern_memory : CExtern → Got ℕ
unfolding memory_at memory_get
extern_memory e = memory_at e.kind e.of

unfoldable pub extern_table : CExtern → Got ℕ
unfolding table_at table_get
extern_table e = table_at e.kind e.of

-- Instance.GetFunc, from what wasmtime finds under the name
unfoldable pub get_func : Option CExtern → Got CFunc
unfolding extern_func
get_func none = nil
get_func (some e) = extern_func e

get_export_of : (ℕ → Option CExtern) → Option ℕ → Option CExtern
get_export_of lookup none = none
get_export_of lookup (some env) = lookup env

-- Caller.GetExport, with the lookup of wasmtime for the env of a caller
unfoldable pub get_export : (ℕ → Option CExtern) → ℕ → Exec World (Option CExtern)
unfolding get_export_of
get_export lookup c = do
  objects ← gets (λ w. w.callers)
  ptr ← or_nil (get_elem? objects c)
  return (get_export_of lookup ptr)

exports_at :
    Option CExtern → Exec World (Option (List CExtern)) → Exec World (Option (List CExtern))
exports_at none rest = return (some [])
exports_at (some item) rest = do items ← rest; return (Option.map (λ xs. item ∷ xs) items)

-- The loop of Instance.Exports from index `i`, with the export of wasmtime at each index, for the env
-- of the store; none when the fuel ends first
unfoldable pub exports_from :
    Storelike → (ℕ → ℕ → Option CExtern) → ℕ → ℕ → Exec World (Option (List CExtern))
unfolding exports_at
exports_from s nth zero i = return none
exports_from s nth (suc fuel) i =
    let rest = exports_from s nth fuel (i + 1) in do env ← context s; exports_at (nth env i) rest

-- Instance.Exports
unfoldable pub instance_exports :
    Storelike → (ℕ → ℕ → Option CExtern) → ℕ → Exec World (Option (List CExtern))
instance_exports s nth fuel = exports_from s nth fuel 0
