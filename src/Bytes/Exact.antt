-- ===== src/Bytes/Exact.antt =====
-- When Go reads a byte vector of wasmtime as it is.
use wasmtime_go.Base.{
  zero, suc, ℕ, ◌<◌, ◌≤◌, ◌≡◌, refl, ap, ◌∙◌, length-append, ◌^◌, ◌%◌, List, [], ◌∷◌, ◌++◌, length,
  arith,
}
use wasmtime_go.Base.Word.{dec}
use wasmtime_go.Go.Value.{runtime_error, unspecified}
use wasmtime_go.Go.Outcome.{ok, panic}
use wasmtime_go.Native.{Class, Request, Wasmtime}
use wasmtime_go.Native.Operations.{Preserves, bind-Preserves, call-Preserves}
use wasmtime_go.Bytes.{take, go_bytes, go_message, error_error, exit_status}

module _ (api : Wasmtime) where
  pub error_error-Preserves : (e : ℕ) → Preserves (error_error api e)
  unfolding error_error
  error_error-Preserves e =
      bind-Preserves _ _ (call-Preserves Class.error e Request.error_message refl) (λ _ s h. h)

  pub exit_status-Preserves : (e : ℕ) → Preserves (exit_status api e)
  unfolding exit_status
  exit_status-Preserves e =
      bind-Preserves _ _ (call-Preserves Class.error e Request.error_exit_status refl) (λ _ s h. h)

module _ {ℓ} {A : Type ℓ} where
  take-length : (xs ys : List A) → take (length xs) (xs ++ ys) ≡ xs
  take-length [] ys = refl
  take-length (x ∷ xs) ys = ap (λ zs. x ∷ zs) (take-length xs ys)

  pub take_all : (xs : List A) → take (length xs) xs ≡ xs
  take_all [] = refl
  take_all (x ∷ xs) = ap (λ zs. x ∷ zs) (take_all xs)

  drop : ℕ → List A → List A
  drop zero xs = xs
  drop (suc n) [] = []
  drop (suc n) (x ∷ xs) = drop n xs

  take-drop : (n : ℕ) (xs : List A) → xs ≡ take n xs ++ drop n xs
  unfolding drop
  take-drop zero xs = refl
  take-drop (suc n) [] = refl
  take-drop (suc n) (x ∷ xs) = ap (λ ys. x ∷ ys) (take-drop n xs)

  length-take_within : (n : ℕ) (xs : List A) → n ≤ length xs → length (take n xs) ≡ n
  length-take_within zero xs h = refl
  length-take_within (suc n) [] h = absurd (omega arith)
  length-take_within (suc n) (x ∷ xs) h = omega (arith, length-take_within n xs (omega arith))

go_bytes_of :
    (data' : List ℕ) (size : ℕ) → size < 2 ^ 31 → go_bytes data' size ≡ ok (take size data')
unfolding go_bytes
go_bytes_of data' size h = ground arith

-- Of fewer than 2 ^ 31 bytes, Go reads a byte vector of wasmtime as it is, and the message of a trap
-- without the zero byte that ends it.
pub go_bytes-whole :
    (text : List ℕ)
    → length text < 2 ^ 31
    → (go_bytes text (length text) ≡ ok text) × (go_message (text ++ 0 ∷ []) ≡ ok text)
unfolding go_message
go_bytes-whole text h =
    let size : dec (length (text ++ 0 ∷ [])) ≡ length text =
      omega (arith, length-append text (0 ∷ [])) in
    (
      go_bytes_of text (length text) h ∙ ap ok (take_all text),
      ap (go_bytes (text ++ 0 ∷ [])) size
          ∙ go_bytes_of (text ++ 0 ∷ []) (length text) h
          ∙ ap ok (take-length text (0 ∷ [])),
    )

-- From 2 ^ 31 bytes on, for any length that a size_t holds, Go never reads the byte vector: the read
-- stops with a panic, if bit 31 of the length is set, and otherwise gives as many of the first bytes as
-- the low 32 bits of the length say, which are fewer.
pub go_bytes-long :
    (data' : List ℕ)
    → 2 ^ 31 ≤ length data'
    → length data' < 2 ^ 64
    → let n = length data' % 2 ^ 32 in
      (2 ^ 31 ≤ n → go_bytes data' (length data') ≡ panic (runtime_error unspecified))
      × (n < 2 ^ 31
          → (xs : List ℕ) × (ys : List ℕ) × (go_bytes data' (length data') ≡ ok xs)
            × (data' ≡ xs ++ ys)
            × (length xs ≡ n)
            × (length xs < length data'))
unfolding go_bytes
go_bytes-long data' long h =
    let n = length data' % 2 ^ 32 in
    (
      λ over. ground arith,
      λ fits.
          let within : n ≤ length data' = omega arith in
          let read : length (take n data') ≡ n = length-take_within n data' within in
          (take n data', drop n data', ground arith, take-drop n data', read, omega (arith, read)),
    )
