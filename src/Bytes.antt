-- ===== src/Bytes.antt =====
-- Byte vectors that wasmtime fills in, and the Go bytes and strings made of them: error.go, `Message`
-- and the names of frames of trap.go, and the ends of `Wat2Wasm` and `Serialize`. A string is its bytes.
pub mod Exact
use wasmtime_go.Base.{
  zero, suc, ℕ, ◌%◌, ◌^◌, Bool, not, Option, none, some, List, [], ◌∷◌, ltb, length, if◌then◌else◌,
}
use wasmtime_go.Base.Word.{dec}
use wasmtime_go.Go.Value.{runtime_error, unspecified}
use wasmtime_go.Go.Outcome.{Outcome, ok, panic, Exec, return, gets, lift, ◌>>=◌, ◌>>◌}
use wasmtime_go.Native.{Class, Request, State, Wasmtime, call}

module _ {ℓ} {A : Type ℓ} where
  abbrev pub take : ℕ → List A → List A
  take zero xs = []
  take (suc n) [] = []
  take (suc n) (x ∷ xs) = x ∷ take n xs

-- C.GoBytes(data, C.int(size)) and C.GoStringN: the cast keeps the low 32 bits, and the run time
-- stops at a length below zero.
unfoldable pub go_bytes : List ℕ → ℕ → Outcome (List ℕ)
go_bytes data' size =
    let n = size % 2 ^ 32 in
    if ltb n (2 ^ 31) then ok (take n data') else panic (runtime_error unspecified)

-- C.GoStringN(message.data, C.int(message.size-1)), of a message that ends in a zero byte
unfoldable pub go_message : List ℕ → Outcome (List ℕ)
go_message data' = go_bytes data' (dec (length data'))

module _ (api : Wasmtime) where
  -- Error.Error
  unfoldable pub error_error : ℕ → Exec State (List ℕ)
  error_error e = do
    call Class.error e Request.error_message
    message ← gets (λ s. api.bytes s.log)
    lift (go_bytes message (length message))

  -- Error.ExitStatus
  unfoldable pub exit_status : ℕ → Exec State (ℕ × Bool)
  exit_status e = do
    call Class.error e Request.error_exit_status
    status ← gets (λ s. api.number s.log)
    failed ← gets (λ s. api.fails s.log)
    return (status, not failed)

-- What wasmtime says of a trap and of a frame, by their C pointers.
pub record TrapApi : Type 0 where
  pub message : ℕ → List ℕ
  pub trap_code : ℕ → Option ℕ
  pub trace : ℕ → List ℕ
  pub func_name : ℕ → Option (List ℕ)
  pub module_name : ℕ → Option (List ℕ)
  pub func_index : ℕ → ℕ
  pub module_offset : ℕ → ℕ
  pub func_offset : ℕ → ℕ

-- trap.go's `Frame`; the owner is the list that frees the C frames, and stands for its trap.
pub record Frame : Type 0 where
  pub ptr : ℕ
  pub owner : ℕ

abbrev map_some : Outcome (List ℕ) → Outcome (Option (List ℕ))
map_some (ok name) = ok (some name)
map_some (panic v) = panic v

abbrev name_of : Option (List ℕ) → Outcome (Option (List ℕ))
name_of none = ok none
name_of (some name) = map_some (go_bytes name (length name))

abbrev frames_of : ℕ → List ℕ → List Frame
frames_of trap [] = []
frames_of trap (ptr ∷ rest) = record { ptr = ptr; owner = trap } ∷ frames_of trap rest

module _ (api : TrapApi) where
  -- Trap.Message and Trap.Error
  abbrev pub trap_message : ℕ → Outcome (List ℕ)
  trap_message t = go_message (api.message t)

  -- Trap.Code; the C code is copied to a new variable
  abbrev pub trap_code : ℕ → Option ℕ
  trap_code t = api.trap_code t

  -- Trap.Frames
  abbrev pub frames : ℕ → List Frame
  frames t = frames_of t (api.trace t)

  -- Frame.FuncName and Frame.ModuleName
  abbrev pub func_name : Frame → Outcome (Option (List ℕ))
  func_name f = name_of (api.func_name f.ptr)

  abbrev pub module_name : Frame → Outcome (Option (List ℕ))
  module_name f = name_of (api.module_name f.ptr)

  -- Frame.FuncIndex, a uint32, and Frame.ModuleOffset and Frame.FuncOffset
  abbrev pub func_index : Frame → ℕ
  func_index f = api.func_index f.ptr

  abbrev pub module_offset : Frame → ℕ
  module_offset f = api.module_offset f.ptr

  abbrev pub func_offset : Frame → ℕ
  func_offset f = api.func_offset f.ptr
