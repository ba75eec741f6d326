-- ===== src/Lib.antt =====
-- wasmtime-go: the Go side of the embedding API of wasmtime.
--
-- The library wraps the C API of wasmtime. What it implements itself, and what is modelled here, is
-- how Go closures and Go values are kept for wasm and found again, and how control crosses between
-- Go and wasm:
--
-- * Slab (slab.go) is the allocator of small integers. Slab/Spec is its specification, a pool
--   of free slots, which the threaded free list represents; Slab/History is the view of a client.
-- * Registry is the pattern of the four global tables of store.go and val.go: a map with a slab for
--   its keys. Registry/Laws is the interface that the users of the tables rely on; Registry/Client is
--   the view of a client that calls it in any order, against a table that uses no key twice;
--   Registry/Locked is goroutines that call it at the same time, statement by statement, under its
--   lock, where Lock waits until no goroutine holds the lock; Slab/Bounded is why none gets stuck there.
-- * Kind (valtype.go), World (the shared state) and Store (store.go, and `Caller.Context` of func.go)
--   model the stores, the data that Go keeps for each, and the tables of host functions. An index of
--   a host function is even for a function of the engine and odd for one of a store.
-- * Val (val.go) models values, their accessors and the table of `externref`s.
-- * Trap (trap.go) models `*Trap` objects: the C pointer they own and their finalizer.
-- * Infer (`inferFuncType`, func.go) infers the wasm type of a Go function.
-- * Enter (`enterWasm`, func.go) runs wasm and turns what it left into a result, an error or a panic.
-- * Trampoline (func.go) is what wasm calls: New is `goTrampolineNew`, Wrap is `goTrampolineWrap`.
--   Both leave a panic of the embedder with the store, for `enterWasm` to raise again.
-- * Call (func.go) is `NewFunc`, `WrapFunc` and `Func.Call`. Call/HostFunction, Call/HostFailure,
--   Call/WrappedFunction and Call/WrappedFailure compose them with `enterWasm` and the trampolines,
--   for functions of numbers (Call/Numbers).
-- * Lifetime is any history of the operations of store.go and val.go on the shared state.
-- * Linker (linker.go, instance.go) gives host functions to no store, and instantiates.
-- * Extern (extern.go, instance.go, and the AsExtern methods) is the dispatch on the kind of an item,
--   and the loop of `Instance.Exports`.
-- * Native is the Go objects that own a C object, the log of the calls that the Go code makes of
--   wasmtime, and the collector. Native/Trace says when the calls of a log are safe, and Native/Owned
--   how the objects and the log agree. Config (config.go, engine.go), Wasi (wasi.go), Context (the C
--   side of store.go), Linking (the C side of linker.go), Module (module.go, wat2wasm.go) and Bytes
--   (error.go, and the reads of trap.go) are operations on such objects, each with a child Ownership
--   for what it does to the balance. Objects is any history of them all, and of NewFunc, WrapFunc,
--   Func.Call and instantiation, whose runs of wasm have the steps of the host functions inside.
-- * Items (memory.go, table.go, global.go) is memories, tables and globals: Items/Values composes them
--   with `externref`s, and Items/Bytes is what Go reads of a memory.
-- * Types (valtype.go, functype.go, globaltype.go, tabletype.go, memorytype.go, externtype.go,
--   importtype.go, exporttype.go, and the lists of module.go) is the ownership of the C objects behind
--   Go type objects, over any history of calls; Types/Limits is what constructors and accessors say.
-- * Examples holds concrete states and runs.
--
-- State. `World` is the globals and the Go objects that are written through pointers, each object at
-- its index in a list. Code is in the monad `Exec` of Go/Outcome, which keeps what was written before
-- a panic. A `Caller` and a C context stand for the env of their store, since that is all that the
-- Go code reads from them. `int` and `size_t` are 64-bit patterns with their wrap-around (Base/Word),
-- and the laws that need it ask that the tables stay below 2 ^ 62 or 2 ^ 64 entries. In a slab an
-- index is a number, without the wrap-around at 2 ^ 63 that a list in memory cannot reach. The
-- loop of `Instance.Exports` runs on fuel, and one turn more than there are exports is enough; every
-- other loop is over a list.
--
-- Parameters. `Host` holds the embedder's closures, `wasmtime_trap_new`, and which values reflection
-- takes for a type that func.go does not name. A run of wasm is an argument of `enter_wasm` and
-- `call`; where it runs a host function, the trap that this answers comes back as an error of wasmtime,
-- named by the pointer of the trap. `LinkerApi`, `ItemApi`, `TypeApi`, `MemoryApi`, `TableApi` and
-- `GlobalApi` are what the Go code calls of wasmtime. These may change the state in any way, but for
-- what a theorem says of the state they leave.
--
-- In a log of Native a C object is its address. A call of wasmtime that takes several objects is logged
-- as a call of the first and a use of each of the others. A reference that is not to an object of the
-- type at hand stands for nil, and so does one to an object that the collector took. `Wasmtime` says,
-- for the calls so far, where a new C object is put, whether the last call failed, and what it wrote;
-- the laws ask that the allocator puts no object at the address of a live one. `Files` is the file
-- system and the text parser, and `TrapApi` what wasmtime says of traps and frames.
--
-- Not modelled: goroutines outside of Registry/Locked, where an operation on a table is one step;
-- `recover()` of a panic with nil, which Go cannot tell from no panic, so the theorems on panics ask
-- for another value; `runtime.KeepAlive` and the debug GC; C strings, which end at a zero byte of the
-- Go string; NewWasiCtx and the methods of `WasiCtx`, whose owner the code does not fix; and the
-- build files, the link flags of ffi.go and the C accessors of shims.c.
pub mod Base
pub mod Go
pub mod Slab
pub mod Registry
pub mod Kind
pub mod World
pub mod Store
pub mod Val
pub mod Trap
pub mod Infer
pub mod Enter
pub mod Trampoline
pub mod Call
pub mod Lifetime
pub mod Native
pub mod Config
pub mod Wasi
pub mod Bytes
pub mod Module
pub mod Context
pub mod Linking
pub mod Objects
pub mod Items
pub mod Linker
pub mod Types
pub mod Extern
pub mod Examples
