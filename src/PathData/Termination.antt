-- ===== src/PathData/Termination.antt =====
-- The loops of compile_path_data (packages/vyne/src/vyne/path_data.py) and the rounds they take.
use vyne.Common.{
  Bool, List, Option, Option-cases, Result, String, [], arith, drop, false, if◌then◌else◌, inl, inr,
  length, none, ok, raise, some, suc, true, value_error, zero, ℕ, ◌+◌, ◌<◌, ◌∷◌, ◌≡◌, ◌≢◌, ◌≤◌,
}
use vyne.PathData.{
  Command, appended, first_then, arity_of, compile_tokens, is_command, made_or_raise,
  output_command, run_arity, run_command, segment, segments,
}

length-drop : {A : Type 0} (n : ℕ) (xs : List A) → length (drop n xs) ≤ length xs
length-drop zero xs = omega arith
length-drop (suc n) [] = omega arith
length-drop (suc n) (x ∷ xs) = ground (arith, length-drop n xs)

module _ {F : Type 0} (number : String → Result F) where
  -- What the inner loop answers.
  abbrev Answer : Type 0
  Answer = Option (Result (List (Command F) × List String))

  -- It leaves no more tokens than there are, and fewer where it appends a command.
  abbrev Fits : ℕ → Answer → Type 0
  Fits n none = ⊥
  Fits n (some (raise e)) = Unit
  Fits n (some (ok ([], rest))) = length rest ≤ n
  Fits n (some (ok (made ∷ more, rest))) = length rest < n

  first_then-Fits :
      (n m : ℕ) (cmd : String) (values : Result (List F)) (rest : Answer)
      → n < m
      → Fits n rest
      → Fits m (first_then number cmd values rest)
  first_then-Fits n m cmd (raise e) rest l h = tt
  first_then-Fits n m cmd (ok values) none l h = h
  first_then-Fits n m cmd (ok values) (some (raise e)) l h = tt
  first_then-Fits n m cmd (ok values) (some (ok ([], left))) l h = omega arith
  first_then-Fits n m cmd (ok values) (some (ok (made ∷ more, left))) l h = omega arith

  if-Fits : (n : ℕ) (b : Bool) (x y : Answer) → Fits n x → Fits n y → Fits n (if b then x else y)
  if-Fits n true x y h k = h
  if-Fits n false x y h k = k

  segments-Fits :
      (fuel : ℕ) (command : String) (k : ℕ) (parsed : Bool) (tokens : List String)
      → length tokens < fuel
      → Fits (length tokens) (segments number fuel command (suc k) parsed tokens)
  unfolding segments
  segments-Fits zero command k parsed tokens h = absurd (omega arith)
  segments-Fits (suc fuel) command k parsed [] h = omega arith
  segments-Fits (suc fuel) command k parsed (token ∷ tokens) h =
      let shorter = length-drop k tokens in
      let ih = segments-Fits fuel command k true (drop k tokens) (omega arith) in
      if-Fits (length (token ∷ tokens)) (is_command token) (some (ok ([], token ∷ tokens)))
        (first_then number (output_command command parsed) (segment number (suc k) (token ∷ tokens))
          (segments number fuel command (suc k) true (drop k tokens)))
        (omega arith)
        (first_then-Fits (length (drop k tokens)) (length (token ∷ tokens))
          (output_command command parsed) (segment number (suc k) (token ∷ tokens))
          (segments number fuel command (suc k) true (drop k tokens)) (omega arith) ih)

  appended-some :
      (cs : List (Command F)) (later : Option (Result (List (Command F))))
      → later ≢ none
      → appended number cs later ≢ none
  appended-some [] later h = h
  appended-some (c ∷ cs) later h = ground (arith, appended-some cs later)

  made_or_raise-some :
      (n : ℕ) (answer : Answer) (next : List String → Option (Result (List (Command F))))
      → Fits n answer
      → ((rest : List String) → length rest < n → next rest ≢ none)
      → made_or_raise number answer next ≢ none
  made_or_raise-some n none next h k = absurd h
  made_or_raise-some n (some (raise e)) next h k = ground arith
  made_or_raise-some n (some (ok ([], rest))) next h k = ground arith
  made_or_raise-some n (some (ok (made ∷ more, rest))) next h k =
      appended-some (made ∷ more) (next rest) (k rest h)

  run_arity-some :
      (arity : Result ℕ) (fuel : ℕ)
      (next : Option String → List String → Option (Result (List (Command F)))) (c : String)
      (tokens : List String)
      → length tokens < fuel
      → next none tokens ≢ none
      → ((rest : List String) → length rest < length tokens → next (some c) rest ≢ none)
      → run_arity number arity fuel next c tokens ≢ none
  run_arity-some (raise e) fuel next c tokens h k ks = ground arith
  run_arity-some (ok zero) fuel next c tokens h k ks =
      appended-some (record { cmd = c; values = [] } ∷ []) (next none tokens) k
  run_arity-some (ok (suc a)) fuel next c tokens h k ks =
      made_or_raise-some (length tokens) (segments number fuel c (suc a) false tokens)
        (next (some c)) (segments-Fits fuel c a false tokens h) ks

  if-some :
      (b : Bool) (x y : Option (Result (List (Command F))))
      → x ≢ none
      → y ≢ none
      → (if b then x else y) ≢ none
  if-some true x y h k = h
  if-some false x y h k = k

  -- The rounds that are left: two for a token, and one for a current command.
  abbrev rounds : Option String → List String → ℕ
  rounds none tokens = length tokens + length tokens
  rounds (some c) tokens = suc (length tokens + length tokens)

  compile_tokens-some :
      (fuel : ℕ) (command : Option String) (tokens : List String)
      → rounds command tokens < fuel
      → compile_tokens number fuel command tokens ≢ none
  unfolding compile_tokens
  compile_tokens-some zero command tokens h = absurd (omega arith)
  compile_tokens-some (suc fuel) command [] h = ground arith
  compile_tokens-some (suc fuel) none (token ∷ tokens) h =
      let run =
        run_arity-some (arity_of token) fuel (compile_tokens number fuel) token tokens (omega arith)
          (compile_tokens-some fuel none tokens (omega arith))
          (λ rest l. compile_tokens-some fuel (some token) rest (omega arith)) in
      if-some (is_command token) (run_command number fuel (compile_tokens number fuel) token tokens)
        (some (raise value_error)) run (ground arith)
  compile_tokens-some (suc fuel) (some c) (token ∷ tokens) h =
      let run =
        run_arity-some (arity_of token) fuel (compile_tokens number fuel) token tokens (omega arith)
          (compile_tokens-some fuel none tokens (omega arith))
          (λ rest l. compile_tokens-some fuel (some token) rest (omega arith)) in
      let again =
        run_arity-some (arity_of c) fuel (compile_tokens number fuel) c (token ∷ tokens)
          (omega arith) (compile_tokens-some fuel none (token ∷ tokens) (omega arith))
          (λ rest l. compile_tokens-some fuel (some c) rest (omega arith)) in
      if-some (is_command token) (run_command number fuel (compile_tokens number fuel) token tokens)
        (run_command number fuel (compile_tokens number fuel) c (token ∷ tokens)) run again

  -- The loops end on any tokens, valid or not: fuel above twice their number is enough for an answer.
  pub compile-terminates :
      (fuel : ℕ) (tokens : List String)
      → length tokens + length tokens < fuel
      → (answer : Result (List (Command F))) × (compile_tokens number fuel none tokens
          ≡ some answer)
  compile-terminates fuel tokens h = elim (Option-cases (compile_tokens number fuel none tokens)) [
    | inl e ↦ absurd (compile_tokens-some fuel none tokens h e)
    | inr answer ↦ answer
  ]
