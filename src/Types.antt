-- ===== src/Types.antt =====
-- valtype.go, functype.go, globaltype.go, tabletype.go, memorytype.go, externtype.go, importtype.go,
-- exporttype.go, and the lists of module.go: Go objects that point to type objects of wasmtime. Such
-- an object either owns its C object and frees it in a finalizer, or points into one that another
-- Go object owns.
pub mod History
pub mod Operations
pub mod Owners
pub mod Limits
use wasmtime_go.Base.{
  ℕ, Bool, true, false, Option, none, some, List, [], ◌∷◌, ◌++◌, length, get_elem?,
}
use wasmtime_go.Go.Outcome.{Exec, return, gets, or_nil, ◌>>=◌}

-- The Go types; `import_list` and `export_list` are `importTypeList` and `exportTypeList`.
pub data Class : Type 0 where
  val_type func_type global_type table_type memory_type extern_type : Class
  import_type export_type import_list export_list : Class

-- One Go object. Its C pointer is a number, and its owner the index of another object.
pub record TypeObject : Type 0 where
  pub class : Class
  pub ptr : ℕ
  pub owner : Option ℕ
  pub finalizer : Bool

abbrev pub Heap : Type 0
Heap = List TypeObject

-- What the Go code calls of wasmtime: pointers into the object that a pointer leads to.
pub record TypeApi : Type 0 where
  pub functype_as_externtype : ℕ → ℕ
  pub globaltype_as_externtype : ℕ → ℕ
  pub tabletype_as_externtype : ℕ → ℕ
  pub memorytype_as_externtype : ℕ → ℕ
  pub externtype_as_functype : ℕ → Option ℕ
  pub externtype_as_globaltype : ℕ → Option ℕ
  pub externtype_as_tabletype : ℕ → Option ℕ
  pub externtype_as_memorytype : ℕ → Option ℕ
  pub functype_params : ℕ → List ℕ
  pub functype_results : ℕ → List ℕ
  pub globaltype_content : ℕ → ℕ
  pub tabletype_element : ℕ → ℕ
  pub importtype_type : ℕ → ℕ
  pub exporttype_type : ℕ → ℕ
  pub list_items : ℕ → List ℕ

-- if owner == nil { runtime.SetFinalizer(…) }
abbrev pub owns : Option ℕ → Bool
owns none = true
owns (some r) = false

-- An allocation with the finalizer that follows it.
pub mk : Class → ℕ → Option ℕ → Exec Heap ℕ
mk class ptr owner heap =
    return (length heap)
      (heap ++ record { class = class; ptr = ptr; owner = owner; finalizer = owns owner } ∷ [])

-- mkValType, mkFuncType and so on
abbrev pub mk_val_type : ℕ → Option ℕ → Exec Heap ℕ
mk_val_type = mk val_type

abbrev pub mk_func_type : ℕ → Option ℕ → Exec Heap ℕ
mk_func_type = mk func_type

abbrev pub mk_global_type : ℕ → Option ℕ → Exec Heap ℕ
mk_global_type = mk global_type

abbrev pub mk_table_type : ℕ → Option ℕ → Exec Heap ℕ
mk_table_type = mk table_type

abbrev pub mk_memory_type : ℕ → Option ℕ → Exec Heap ℕ
mk_memory_type = mk memory_type

abbrev pub mk_extern_type : ℕ → Option ℕ → Exec Heap ℕ
mk_extern_type = mk extern_type

abbrev pub mk_import_type : ℕ → Option ℕ → Exec Heap ℕ
mk_import_type = mk import_type

abbrev pub mk_export_type : ℕ → Option ℕ → Exec Heap ℕ
mk_export_type = mk export_type

abbrev pub load : ℕ → Exec Heap TypeObject
load ref = do objects ← gets (λ heap. heap); or_nil (get_elem? objects ref)

-- ty.ptr()
pub ptr_of : ℕ → Exec Heap ℕ
ptr_of ref = do o ← load ref; return o.ptr

abbrev pub owner_or : ℕ → Option ℕ → ℕ
owner_or ref none = ref
owner_or ref (some r) = r

-- ty.owner()
pub owner_of : ℕ → Exec Heap ℕ
owner_of ref = do o ← load ref; return (owner_or ref o.owner)

-- A new object for a pointer into the C object of another.
pub view : (ℕ → ℕ) → (ℕ → Option ℕ → Exec Heap ℕ) → ℕ → Exec Heap ℕ
view inner make ref = do p ← ptr_of ref; r ← owner_of ref; make (inner p) (some r)

-- The same for a pointer that may be nil.
pub attach_if : (ℕ → Option ℕ → Exec Heap ℕ) → ℕ → Option ℕ → Exec Heap (Option ℕ)
attach_if make ref none = return none
attach_if make ref (some q) = do r ← owner_of ref; t ← make q (some r); return (some t)

pub view_if : (ℕ → Option ℕ) → (ℕ → Option ℕ → Exec Heap ℕ) → ℕ → Exec Heap (Option ℕ)
view_if inner make ref = do p ← ptr_of ref; attach_if make ref (inner p)

module _ (api : TypeApi) where
  -- AsExternType of the four types
  unfoldable pub func_as_extern_type : ℕ → Exec Heap ℕ
  func_as_extern_type = view api.functype_as_externtype mk_extern_type

  unfoldable pub global_as_extern_type : ℕ → Exec Heap ℕ
  global_as_extern_type = view api.globaltype_as_externtype mk_extern_type

  unfoldable pub table_as_extern_type : ℕ → Exec Heap ℕ
  table_as_extern_type = view api.tabletype_as_externtype mk_extern_type

  unfoldable pub memory_as_extern_type : ℕ → Exec Heap ℕ
  memory_as_extern_type = view api.memorytype_as_externtype mk_extern_type

  -- ExternType.FuncType and so on
  unfoldable pub extern_func_type : ℕ → Exec Heap (Option ℕ)
  extern_func_type = view_if api.externtype_as_functype mk_func_type

  unfoldable pub extern_global_type : ℕ → Exec Heap (Option ℕ)
  extern_global_type = view_if api.externtype_as_globaltype mk_global_type

  unfoldable pub extern_table_type : ℕ → Exec Heap (Option ℕ)
  extern_table_type = view_if api.externtype_as_tabletype mk_table_type

  unfoldable pub extern_memory_type : ℕ → Exec Heap (Option ℕ)
  extern_memory_type = view_if api.externtype_as_memorytype mk_memory_type

  -- GlobalType.Content, TableType.Element, ImportType.Type and ExportType.Type
  unfoldable pub global_content : ℕ → Exec Heap ℕ
  global_content = view api.globaltype_content mk_val_type

  unfoldable pub table_element : ℕ → Exec Heap ℕ
  table_element = view api.tabletype_element mk_val_type

  unfoldable pub import_type_type : ℕ → Exec Heap ℕ
  import_type_type = view api.importtype_type mk_extern_type

  unfoldable pub export_type_type : ℕ → Exec Heap ℕ
  export_type_type = view api.exporttype_type mk_extern_type

  -- The loop of convertTypeList
  pub convert_type_list : ℕ → List ℕ → Exec Heap (List ℕ)
  convert_type_list ref [] = return []
  convert_type_list ref (p ∷ ps) = do
    r ← owner_of ref
    t ← mk_val_type p (some r)
    rest ← convert_type_list ref ps
    return (t ∷ rest)

  -- FuncType.Params and FuncType.Results
  unfoldable pub params : ℕ → Exec Heap (List ℕ)
  params ref = do p ← ptr_of ref; convert_type_list ref (api.functype_params p)

  unfoldable pub results : ℕ → Exec Heap (List ℕ)
  results ref = do p ← ptr_of ref; convert_type_list ref (api.functype_results p)

-- The loops of the two mkGoList
pub mk_items : (ℕ → Option ℕ → Exec Heap ℕ) → ℕ → List ℕ → Exec Heap (List ℕ)
mk_items make list [] = return []
mk_items make list (p ∷ ps) = do
  t ← make p (some list)
  rest ← mk_items make list ps
  return (t ∷ rest)

module _ (api : TypeApi) where
  -- Module.Imports and Module.Exports, from the vector that wasmtime fills in
  unfoldable pub imports : ℕ → Exec Heap (List ℕ)
  imports vec = do list ← mk import_list vec none; mk_items mk_import_type list (api.list_items vec)

  unfoldable pub exports : ℕ → Exec Heap (List ℕ)
  exports vec = do list ← mk export_list vec none; mk_items mk_export_type list (api.list_items vec)
