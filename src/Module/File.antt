-- ===== src/Module/File.antt =====
-- What NewModule and NewModuleFromFile leave, on every branch.
use wasmtime_go.Base.{
  zero, suc, false, true, arith, ℕ, String, ◌<◌, ◌^◌, ◌≡◌, ◌∙◌, refl, Option, none, some, List, [],
  ◌∷◌, ◌++◌, inl, inr, length, Bool-cases, Option-cases,
}
use wasmtime_go.Go.Outcome.{ok}
use wasmtime_go.Native.{
  Class, Event, Request, State, Wasmtime, call, ptr, construct, create, mk_object, mk_error,
}
use wasmtime_go.Native.Operations.{Loaded}
use wasmtime_go.Bytes.Exact.{go_bytes-whole}
use wasmtime_go.Module.{
  Reply, done, failed, Files, finish_module, new_module, parsed, wat2wasm, is_text, compile,
  compile_text, compile_file, new_module_from_file,
}

-- A state with one more C object, and the Go object that owns it.
abbrev pub with_new : Wasmtime → Class → State → State
with_new api class s =
    let address = api.address s.log in
    record {
      log = Event.created class address ∷ s.log;
      objects =
          s.objects ++ some (record { class = class; ptr = some address; finalizer = true }) ∷ [];
    }

abbrev pub asked : ℕ → List ℕ → State → State
asked q wasm s = record s {
  log = Event.called Class.engine (some q) (Request.module_new wasm) ∷ s.log;
}

-- Which bytes are compiled: a file that is empty or starts with a zero byte is a binary, and any other
-- one is a text, which may have no binary form.
pub binary_of : Files → List ℕ → Option (List ℕ)
binary_of files [] = some []
binary_of files (zero ∷ rest) = some (0 ∷ rest)
binary_of files (suc b ∷ rest) = files.wat2wasm (suc b ∷ rest)

binary_of-binary :
    (files : Files) (content : List ℕ)
    → is_text content ≡ false
    → binary_of files content ≡ some content
unfolding binary_of
binary_of-binary files [] h = refl
binary_of-binary files (zero ∷ rest) h = refl
binary_of-binary files (suc b ∷ rest) h = absurd (ground arith)

binary_of-text :
    (files : Files) (content : List ℕ)
    → is_text content ≡ true
    → binary_of files content ≡ files.wat2wasm content
unfolding binary_of
binary_of-text files [] h = absurd (ground arith)
binary_of-text files (zero ∷ rest) h = absurd (ground arith)
binary_of-text files (suc b ∷ rest) h = refl

-- The engine at the C pointer `q` was asked to compile the bytes, and the reply is a new module or a
-- new error.
pub data Compiles (api : Wasmtime) (q : ℕ) (s : State) (wasm : List ℕ)
    : Reply ℕ → State → Type 0 where
  made :
      Compiles api q s wasm (done (length s.objects)) (with_new api Class.module' (asked q wasm s))
  refused :
      Compiles api q s wasm (failed (length s.objects)) (with_new api Class.error (asked q wasm s))

-- The bytes of a file were compiled, or its text has no binary form and nothing was compiled.
pub data Reads (api : Wasmtime) (q : ℕ) (s : State) (binary : Option (List ℕ))
    : Reply ℕ → State → Type 0 where
  compiles :
      (wasm : List ℕ) (r : Reply ℕ) (t : State)
      → binary ≡ some wasm
      → Compiles api q s wasm r t
      → Reads api q s binary r t
  unparsed :
      binary ≡ none → Reads api q s binary (failed (length s.objects)) (with_new api Class.error s)

module _ (api : Wasmtime) (engine q : ℕ) (s : State) (l : Loaded Class.engine engine s)
    (points : l.object.ptr ≡ some q) where
  new_module-Compiles :
      (wasm : List ℕ)
      → (r : Reply ℕ) × (t : State) × (new_module api engine wasm s ≡ (ok r, t))
        × Compiles api q s wasm r t
  unfolding new_module finish_module call ptr mk_error construct create mk_object
  new_module-Compiles wasm = elim (Bool-cases (api.fails (asked q wasm s).log)) [
    | inl fails ↦ (
      failed (length s.objects),
      with_new api Class.error (asked q wasm s),
      simp (l.loads, points, fails),
      refused,
    )
    | inr works ↦ (
      done (length s.objects),
      with_new api Class.module' (asked q wasm s),
      simp (l.loads, points, works),
      made,
    )
  ]

  compile_text-Reads :
      (files : Files) (content wasm : List ℕ)
      → files.wat2wasm content ≡ some wasm
      → length wasm < 2 ^ 31
      → compile_text api files engine content s ≡ new_module api engine wasm s
  unfolding compile_text compile wat2wasm parsed
  compile_text-Reads files content wasm e short = simp (e, (go_bytes-whole wasm short).0)

  compile_text-unparsed :
      (files : Files) (content : List ℕ)
      → files.wat2wasm content ≡ none
      → compile_text api files engine content s
        ≡ (ok (failed (length s.objects)), with_new api Class.error s)
  unfolding compile_text compile wat2wasm parsed mk_error construct create mk_object
  compile_text-unparsed files content e = simp e

  -- NewModuleFromFile with an engine, of a file that can be read, where the parser's output is shorter
  -- than 2 ^ 31 bytes: if the first byte is there and not zero, the content is parsed as text, and
  -- otherwise it is the binary itself. Either the engine is asked to compile this binary, and the reply
  -- is one new module or one new error; or the text does not parse, nothing is compiled, and the
  -- reply is one new error.
  pub new_module_from_file_lem :
      (files : Files) (file : String) (content : List ℕ)
      → files.read_file file ≡ done content
      → ((wasm : List ℕ) → files.wat2wasm content ≡ some wasm → length wasm < 2 ^ 31)
      → (r : Reply ℕ) × (t : State) × (new_module_from_file api files engine file s ≡ (ok r, t))
        × Reads api q s (binary_of files content) r t
  unfolding new_module_from_file compile_file
  new_module_from_file_lem files file content read short = elim (Bool-cases (is_text content)) [
    | inr binary ↦
        let (r, t, e, c) = new_module-Compiles content in
        (r, t, rw (read, binary) e, compiles content r t (binary_of-binary files content binary) c)
    | inl text ↦ elim (Option-cases (files.wat2wasm content)) [
      | inl missing ↦ (
        failed (length s.objects),
        with_new api Class.error s,
        rw (read, text) (compile_text-unparsed files content missing),
        unparsed (binary_of-text files content text ∙ missing),
      )
      | inr (wasm, at) ↦
          let (r, t, e, c) = new_module-Compiles wasm in
          (
            r,
            t,
            rw (read, text) (compile_text-Reads files content wasm at (short wasm at) ∙ e),
            compiles wasm r t (binary_of-text files content text ∙ at) c,
          )
    ]
  ]
