-- ===== src/Items.antt =====
-- memory.go, table.go and global.go. A memory, a table or a global is a number, and so is the C
-- pointer of its type; the values themselves are wasmtime's.
pub mod Values
pub mod Bytes
use wasmtime_go.Base.{ℕ, ◌^◌, Option, none, some, List, [], leb, not, if◌then◌else◌, ltb}
use wasmtime_go.Go.Value.{CVal, Val, text}
use wasmtime_go.Go.Outcome.{Exec, return, throw, gets, or_unspecified, ◌>>=◌, ◌>>◌}
use wasmtime_go.World.{World}
use wasmtime_go.Store.{Storelike, context}
use wasmtime_go.Val.{mk_val}
use wasmtime_go.Enter.{GoError, failed, message}
use wasmtime_go.Bytes.{take}

-- What a C function gives back beside its error, none for no error.
pub record Made (A : Type 0) : Type 0 where
  pub error : Option ℕ
  pub output : A

-- wasmtime, by the store that it is called with.
pub record ItemApi : Type 0 where
  pub memory_new : ℕ → ℕ → Exec World (Made ℕ)
  pub memory_data_size : ℕ → ℕ → World → ℕ
  pub memory_size : ℕ → ℕ → World → ℕ
  pub memory_data : ℕ → ℕ → World → List ℕ
  pub memory_grow : ℕ → ℕ → ℕ → Exec World (Made ℕ)
  pub table_new : ℕ → ℕ → CVal → Exec World (Made ℕ)
  pub table_size : ℕ → ℕ → World → ℕ
  pub table_grow : ℕ → ℕ → ℕ → CVal → Exec World (Made ℕ)
  pub table_get : ℕ → ℕ → ℕ → Exec World (Option CVal)
  pub table_set : ℕ → ℕ → ℕ → CVal → Exec World (Option ℕ)
  pub global_new : ℕ → ℕ → CVal → Exec World (Made ℕ)
  pub global_get : ℕ → ℕ → Exec World CVal
  pub global_set : ℕ → ℕ → CVal → Exec World (Option ℕ)

-- A result and an error.
pub record Result (A : Type 0) : Type 0 where
  pub value : A
  pub error : Option GoError

abbrev pub error_from : Option ℕ → Option GoError
error_from none = none
error_from (some e) = some (failed e)

-- if err != nil { return nil, mkError(err) }; return &Memory{ret}, nil
abbrev pub item_or_error : Made ℕ → Result (Option ℕ)
item_or_error m = elim m.error [
  | none ↦ record { value = some m.output; error = none }
  | some e ↦ record { value = none; error = some (failed e) }
]

-- if err != nil { return 0, mkError(err) }; return prev, nil
abbrev pub number_or_error : Made ℕ → Result ℕ
number_or_error m = elim m.error [
  | none ↦ record { value = m.output; error = none }
  | some e ↦ record { value = 0; error = some (failed e) }
]

-- Val.ptr; wasmtime reads through it
abbrev pub val_ptr : Val → Exec World CVal
val_ptr v = or_unspecified v.raw

abbrev pub value_or_error : Option CVal → Result Val
value_or_error none = record {
  value = record { raw = none };
  error = some (message "index out of bounds");
}
value_or_error (some c) = record { value = mk_val c; error = none }

module _ (api : ItemApi) (s : Storelike) where
  -- NewMemory
  unfoldable pub new_memory : ℕ → Exec World (Result (Option ℕ))
  new_memory ty = do env ← context s; made ← api.memory_new env ty; return (item_or_error made)

  -- Memory.DataSize, Memory.Size and Memory.Data
  unfoldable pub data_size : ℕ → Exec World ℕ
  data_size mem = do env ← context s; gets (api.memory_data_size env mem)

  unfoldable pub memory_size : ℕ → Exec World ℕ
  memory_size mem = do env ← context s; gets (api.memory_size env mem)

  unfoldable pub memory_data : ℕ → Exec World (List ℕ)
  memory_data mem = do env ← context s; gets (api.memory_data env mem)

  -- Memory.UnsafeData
  unfoldable pub unsafe_data : ℕ → Exec World (List ℕ)
  unfolding data_size memory_data
  unsafe_data mem = do
    length' ← data_size mem
    if leb (2 ^ 32) length'
        then throw (text "memory is too big")
        else do bytes ← memory_data mem; return (take length' bytes)

  -- Memory.Grow
  unfoldable pub memory_grow : ℕ → ℕ → Exec World (Result ℕ)
  memory_grow mem delta = do
    env ← context s
    made ← api.memory_grow env mem delta
    return (number_or_error made)

  -- NewTable
  unfoldable pub new_table : ℕ → Val → Exec World (Result (Option ℕ))
  new_table ty init = do
    env ← context s
    c ← val_ptr init
    made ← api.table_new env ty c
    return (item_or_error made)

  -- Table.Size
  unfoldable pub table_size : ℕ → Exec World ℕ
  table_size t = do env ← context s; gets (api.table_size env t)

  -- Table.Grow
  unfoldable pub table_grow : ℕ → ℕ → Val → Exec World (Result ℕ)
  table_grow t delta init = do
    env ← context s
    c ← val_ptr init
    made ← api.table_grow env t delta c
    return (number_or_error made)

  -- Table.Get
  unfoldable pub table_get : ℕ → ℕ → Exec World (Result Val)
  table_get t idx = do
    env ← context s
    found ← api.table_get env t idx
    return (value_or_error found)

  -- Table.Set
  unfoldable pub table_set : ℕ → ℕ → Val → Exec World (Option GoError)
  table_set t idx v = do
    env ← context s
    c ← val_ptr v
    err ← api.table_set env t idx c
    return (error_from err)

  -- NewGlobal
  unfoldable pub new_global : ℕ → Val → Exec World (Result (Option ℕ))
  new_global ty v = do
    env ← context s
    c ← val_ptr v
    made ← api.global_new env ty c
    return (item_or_error made)

  -- Global.Get
  unfoldable pub global_get : ℕ → Exec World Val
  global_get g = do env ← context s; c ← api.global_get env g; return (mk_val c)

  -- Global.Set
  unfoldable pub global_set : ℕ → Val → Exec World (Option GoError)
  global_set g v = do
    env ← context s
    c ← val_ptr v
    err ← api.global_set env g c
    return (error_from err)
