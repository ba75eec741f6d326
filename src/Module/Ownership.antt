-- ===== src/Module/Ownership.antt =====
-- What the operations of module.go do to the balance of C objects and owners.
use wasmtime_go.Base.{
  ℕ, String, refl, Bool, true, false, Option, none, some, List, inl, inr, length, Bool-cases,
}
use wasmtime_go.Go.Outcome.{Outcome, return, lift, ◌>>◌}
use wasmtime_go.Native.{Class, Request, Wasmtime, call}
use wasmtime_go.Native.Operations.{
  Fresh, Preserves, bind-Preserves, call-Preserves, construct-Preserves, failing-Preserves,
}
use wasmtime_go.Bytes.{go_bytes}
use wasmtime_go.Module.{
  Reply, done, failed, os_error, Files, module_or, finish_module, new_module,
  new_module_deserialize, new_module_deserialize_file, serialized, serialize, parsed, wat2wasm,
  is_text, compile, compile_text, compile_file, new_module_from_file,
}

lift-Preserves : {A : Type 0} (r : Outcome A) → Preserves (lift r)
lift-Preserves r s h = h

module _ (api : Wasmtime) (fresh : Fresh api) where
  module_or-Preserves : (b : Bool) → Preserves (module_or api b)
  unfolding module_or
  module_or-Preserves true = failing-Preserves api fresh _ (λ e s h. h)
  module_or-Preserves false =
      bind-Preserves _ _ (construct-Preserves api fresh Class.module') (λ m s h. h)

  finish_module-Preserves : Preserves (finish_module api)
  unfolding finish_module
  finish_module-Preserves s h = module_or-Preserves (api.fails s.log) s h

  engine_call-Preserves :
      (engine : ℕ) (request : Request)
      → Preserves (call Class.engine engine request >> finish_module api)
  engine_call-Preserves engine request =
      bind-Preserves _ _ (call-Preserves Class.engine engine request refl)
        (λ _. finish_module-Preserves)

  pub new_module-Preserves : (engine : ℕ) (wasm : List ℕ) → Preserves (new_module api engine wasm)
  unfolding new_module
  new_module-Preserves engine wasm = engine_call-Preserves engine _

  pub new_module_deserialize-Preserves :
      (engine : ℕ) (encoded : List ℕ) → Preserves (new_module_deserialize api engine encoded)
  unfolding new_module_deserialize
  new_module_deserialize-Preserves engine encoded = engine_call-Preserves engine _

  pub new_module_deserialize_file-Preserves :
      (engine : ℕ) (path : String) → Preserves (new_module_deserialize_file api engine path)
  unfolding new_module_deserialize_file
  new_module_deserialize_file-Preserves engine path = engine_call-Preserves engine _

  serialized-Preserves : (b : Bool) → Preserves (serialized api b)
  unfolding serialized
  serialized-Preserves true s h = failing-Preserves api fresh _ (λ e s h. h) s h
  serialized-Preserves false s h =
      let read = go_bytes (api.bytes s.log) (length (api.bytes s.log)) in
      bind-Preserves (lift read) (λ ret. return (done ret)) (lift-Preserves read) (λ ret s h. h) s h

  pub serialize-Preserves : (m : ℕ) → Preserves (serialize api m)
  unfolding serialize
  serialize-Preserves m =
      bind-Preserves _ _ (call-Preserves Class.module' m Request.module_serialize refl)
        (λ _ s h. serialized-Preserves (api.fails s.log) s h)

  parsed-Preserves : (o : Option (List ℕ)) → Preserves (parsed api o)
  unfolding parsed
  parsed-Preserves none = failing-Preserves api fresh _ (λ e s h. h)
  parsed-Preserves (some binary) =
      bind-Preserves _ _ (lift-Preserves (go_bytes binary (length binary))) (λ ret s h. h)

  compile-Preserves : (engine : ℕ) (r : Reply (List ℕ)) → Preserves (compile api engine r)
  unfolding compile
  compile-Preserves engine (done wasm) = new_module-Preserves engine wasm
  compile-Preserves engine (failed e) = λ s h. h
  compile-Preserves engine (os_error e) = λ s h. h

  pub wat2wasm-Preserves : (files : Files) (wat : List ℕ) → Preserves (wat2wasm api files wat)
  unfolding wat2wasm
  wat2wasm-Preserves files wat = parsed-Preserves (files.wat2wasm wat)

  compile_file-Preserves :
      (files : Files) (engine : ℕ) (r : Reply (List ℕ))
      → Preserves (compile_file api files engine r)
  unfolding compile_file compile_text
  compile_file-Preserves files engine (done wasm) = elim (Bool-cases (is_text wasm)) [
    | inl text ↦
        rw text (bind-Preserves _ _ (wat2wasm-Preserves files wasm) (compile-Preserves engine))
    | inr binary ↦ rw binary (new_module-Preserves engine wasm)
  ]
  compile_file-Preserves files engine (failed e) = λ s h. h
  compile_file-Preserves files engine (os_error e) = λ s h. h

  pub new_module_from_file-Preserves :
      (files : Files) (engine : ℕ) (file : String)
      → Preserves (new_module_from_file api files engine file)
  unfolding new_module_from_file
  new_module_from_file-Preserves files engine file =
      compile_file-Preserves files engine (files.read_file file)
