-- ===== src/Types/History.antt =====
-- Any sequence of calls on type objects.
use wasmtime_go.Base.{ℕ, ◌≡◌, refl, ap, ◌∙◌, none, List, [], ◌∷◌, ◌++◌, arith}
use wasmtime_go.Types.{
  Class, Heap, TypeApi, mk, func_as_extern_type, global_as_extern_type, table_as_extern_type,
  memory_as_extern_type, extern_func_type, extern_global_type, extern_table_type,
  extern_memory_type, global_content, table_element, import_type_type, export_type_type, params,
  results, imports, exports,
}
use wasmtime_go.Types.Owners.{Rooted, freed, Keeps, mk-Keeps}
use wasmtime_go.Types.Operations.{
  view-Keeps, view_if-Keeps, params-Keeps, results-Keeps, imports-Keeps, exports-Keeps,
}

-- One call, on any reference, whether it returns or panics. `new` is the end of every constructor: an
-- object for a new C object, with no owner.
pub data Step (api : TypeApi) (heap : Heap) : Heap → Type 0 where
  new : (class : Class) (ptr : ℕ) → Step api heap (mk class ptr none heap).1
  func_extern : (ref : ℕ) → Step api heap (func_as_extern_type api ref heap).1
  global_extern : (ref : ℕ) → Step api heap (global_as_extern_type api ref heap).1
  table_extern : (ref : ℕ) → Step api heap (table_as_extern_type api ref heap).1
  memory_extern : (ref : ℕ) → Step api heap (memory_as_extern_type api ref heap).1
  extern_func : (ref : ℕ) → Step api heap (extern_func_type api ref heap).1
  extern_global : (ref : ℕ) → Step api heap (extern_global_type api ref heap).1
  extern_table : (ref : ℕ) → Step api heap (extern_table_type api ref heap).1
  extern_memory : (ref : ℕ) → Step api heap (extern_memory_type api ref heap).1
  content : (ref : ℕ) → Step api heap (global_content api ref heap).1
  element : (ref : ℕ) → Step api heap (table_element api ref heap).1
  import_extern : (ref : ℕ) → Step api heap (import_type_type api ref heap).1
  export_extern : (ref : ℕ) → Step api heap (export_type_type api ref heap).1
  func_params : (ref : ℕ) → Step api heap (params api ref heap).1
  func_results : (ref : ℕ) → Step api heap (results api ref heap).1
  module_imports : (vec : ℕ) → Step api heap (imports api vec heap).1
  module_exports : (vec : ℕ) → Step api heap (exports api vec heap).1

pub data History (api : TypeApi) : Heap → Type 0 where
  start : History api []
  step : (heap later : Heap) → History api heap → Step api heap later → History api later

-- The C objects that wasmtime makes for the Go code to free: that of a constructor, and the vector of a
-- list. All others are inside of one of these.
abbrev pub given : {api : TypeApi} {heap later : Heap} → Step api heap later → List ℕ
given (new class ptr) = ptr ∷ []
given (module_imports vec) = vec ∷ []
given (module_exports vec) = vec ∷ []
given _ = []

abbrev pub received : {api : TypeApi} {heap : Heap} → History api heap → List ℕ
received start = []
received (step heap later h s) = received h ++ given s

Step-Keeps :
    (api : TypeApi) (heap later : Heap) (s : Step api heap later)
    → Rooted heap
    → Keeps heap (given s) later
unfolding func_as_extern_type global_as_extern_type table_as_extern_type memory_as_extern_type
    extern_func_type extern_global_type extern_table_type extern_memory_type global_content
    table_element import_type_type export_type_type
Step-Keeps api heap _ (new class ptr) h = mk-Keeps class ptr none heap tt h
Step-Keeps api heap _ (func_extern ref) h = view-Keeps heap ref h _ _
Step-Keeps api heap _ (global_extern ref) h = view-Keeps heap ref h _ _
Step-Keeps api heap _ (table_extern ref) h = view-Keeps heap ref h _ _
Step-Keeps api heap _ (memory_extern ref) h = view-Keeps heap ref h _ _
Step-Keeps api heap _ (extern_func ref) h = view_if-Keeps heap ref h _ _
Step-Keeps api heap _ (extern_global ref) h = view_if-Keeps heap ref h _ _
Step-Keeps api heap _ (extern_table ref) h = view_if-Keeps heap ref h _ _
Step-Keeps api heap _ (extern_memory ref) h = view_if-Keeps heap ref h _ _
Step-Keeps api heap _ (content ref) h = view-Keeps heap ref h _ _
Step-Keeps api heap _ (element ref) h = view-Keeps heap ref h _ _
Step-Keeps api heap _ (import_extern ref) h = view-Keeps heap ref h _ _
Step-Keeps api heap _ (export_extern ref) h = view-Keeps heap ref h _ _
Step-Keeps api heap _ (func_params ref) h = params-Keeps api ref heap h
Step-Keeps api heap _ (func_results ref) h = results-Keeps api ref heap h
Step-Keeps api heap _ (module_imports vec) h = imports-Keeps api vec heap h
Step-Keeps api heap _ (module_exports vec) h = exports-Keeps api vec heap h

-- After any sequence of calls, on any references, every type object either has no owner and a
-- finalizer that frees its C object, or has no finalizer and an owner that has one and has no owner
-- itself. The C objects that these finalizers free are exactly those that wasmtime made for the Go code
-- to free, each once: no pointer into another C object is ever freed.
pub History-Rooted :
    {api : TypeApi} {heap : Heap} (h : History api heap) → Rooted heap × (freed heap ≡ received h)
History-Rooted start = (λ i o at. absurd (ground arith), refl)
History-Rooted {api} (step heap later h s) =
    let (rooted, same) = History-Rooted h in
    let k = Step-Keeps api heap later s rooted in
    (k.rooted, k.frees ∙ ap (λ xs. xs ++ given s) same)
