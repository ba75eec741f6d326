-- ===== src/Kind.antt =====
-- valtype.go: the kinds of wasm values, and the kind that a C value's tag stands for.
use wasmtime_go.Base.{ℕ, ◌+◌, ◌≡◌, ◌↔◌, String, Bool, true, List, arith, ◌==◌}
use wasmtime_go.Go.Value.{text}
use wasmtime_go.Go.Outcome.{Outcome, ok, panic}

-- `ValKind`. Its constants label the cases of one Go switch, so they differ; a kind that wasmtime
-- has and the Go code does not name is `unknown`.
pub data ValKind : Type 0 where
  i32 i64 f32 f64 externref funcref : ValKind
  unknown : ℕ → ValKind

abbrev code : ValKind → ℕ
code i32 = 0
code i64 = 1
code f32 = 2
code f64 = 3
code externref = 4
code funcref = 5
code (unknown n) = n + 6

-- a == b
unfoldable pub same_kind : ValKind → ValKind → Bool
same_kind a b = code a == code b

pub same_kind_iff : (a b : ValKind) → (same_kind a b ≡ true) ↔ (a ≡ b)
unfolding same_kind
same_kind_iff a b = (λ h. ground arith, λ h. ground arith)

-- ValKind.String
unfoldable pub to_string : ValKind → Outcome String
to_string i32 = ok "i32"
to_string i64 = ok "i64"
to_string f32 = ok "f32"
to_string f64 = ok "f64"
to_string externref = ok "externref"
to_string funcref = ok "funcref"
to_string (unknown n) = panic (text "unknown kind")

-- A `FuncType`, as the kinds that its two lists hold.
pub record FuncType : Type 0 where
  pub params : List ValKind
  pub results : List ValKind
