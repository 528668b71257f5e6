-- ===== src/PathData/Soundness.antt =====
-- The commands that compile_path_data makes (packages/vyne/src/vyne/path_data.py), against the arity
-- of their letters.
use vyne.Common.{
  All, ap, Bool, List, Option, Result, Result-cases, String, [], arith, drop, false, if◌then◌else◌,
  inl, inr, length, none, ok, raise, refl, some, suc, take, true, value_error, zero, ℕ, ◌&&◌, ◌∷◌,
  ◌≡◌, ◌≤◌, ◌∙◌, sym, subst,
}
use vyne.Common.Maps.{string_eq}
use vyne.PathData.{
  Command, appended, arity_at, arity_of, compile_tokens, first_then, is_command, made_or_raise,
  numbers, one_more_command, output_command, run_arity, run_command, segment, segments, upper,
}

-- The implicit lines after a move take as many values.
line_arity :
    (move parsed absolute : Bool) (c : String) (n : ℕ)
    → (move ≡ true → arity_at "M" ≡ ok n)
    → arity_of c ≡ ok n
    → arity_of (if move && parsed then (if absolute then "L" else "l") else c) ≡ ok n
unfolding arity_of arity_at
line_arity false parsed absolute c n m h = h
line_arity true false absolute c n m h = h
line_arity true true true c n m h = m refl
line_arity true true false c n m h = m refl

output_command-arity :
    (c : String) (parsed : Bool) (n : ℕ)
    → arity_of c ≡ ok n
    → arity_of (output_command c parsed) ≡ ok n
unfolding arity_of
output_command-arity c parsed n h =
    line_arity (string_eq.beq (upper c) "M") parsed (string_eq.beq c "M") c n
      (λ e. subst (λ letter. arity_at letter ≡ ok n) ((string_eq.beq_iff (upper c) "M").0 e) h) h

length-take : (n : ℕ) (xs : List String) → n ≤ length xs → length (take n xs) ≡ n
length-take zero xs h = refl
length-take (suc n) [] h = absurd (omega arith)
length-take (suc n) (x ∷ xs) h = ground (arith, length-take n xs)

module _ {F : Type 0} (number : String → Result F) where
  -- The command takes as many values as it has.
  abbrev pub IsSound : Command F → Type 0
  IsSound c = arity_of c.cmd ≡ ok (length c.values)

  numbers-length :
      (tokens : List String) (values : List F)
      → numbers number tokens ≡ ok values
      → length values ≡ length tokens
  unfolding numbers
  numbers-length [] values h = ground arith
  numbers-length (token ∷ tokens) values h = elim (Result-cases (numbers number tokens)) [
    | inl (vs, e) ↦ ground (arith, numbers-length tokens vs e)
    | inr (x, e) ↦ absurd (ground arith)
  ]

  segment-length :
      (arity : ℕ) (tokens : List String) (values : List F)
      → segment number arity tokens ≡ ok values
      → length values ≡ arity
  unfolding segment
  segment-length arity tokens values h =
      ground (arith, numbers-length (take arity tokens) values, length-take arity tokens)

  abbrev AllSound : Option (Result (List (Command F) × List String)) → Type 0
  AllSound none = Unit
  AllSound (some (raise e)) = Unit
  AllSound (some (ok (made, rest))) = All IsSound made

  first_then-AllSound :
      (cmd : String) (values : Result (List F))
      (rest : Option (Result (List (Command F) × List String)))
      → ((vs : List F) → values ≡ ok vs → arity_of cmd ≡ ok (length vs))
      → AllSound rest
      → AllSound (first_then number cmd values rest)
  first_then-AllSound cmd (raise e) rest v h = tt
  first_then-AllSound cmd (ok vs) none v h = tt
  first_then-AllSound cmd (ok vs) (some (raise e)) v h = tt
  first_then-AllSound cmd (ok vs) (some (ok (more, left))) v h = (v vs refl, h)

  if-AllSound :
      (b : Bool) (x y : Option (Result (List (Command F) × List String)))
      → AllSound x
      → AllSound y
      → AllSound (if b then x else y)
  if-AllSound true x y h k = h
  if-AllSound false x y h k = k

  segments-AllSound :
      (fuel : ℕ) (c : String) (arity : ℕ) (parsed : Bool) (tokens : List String)
      → arity_of c ≡ ok arity
      → AllSound (segments number fuel c arity parsed tokens)
  unfolding segments
  segments-AllSound zero c arity parsed tokens h = tt
  segments-AllSound (suc fuel) c arity parsed [] h = tt
  segments-AllSound (suc fuel) c arity parsed (token ∷ tokens) h =
      let rest = segments number fuel c arity true (drop arity (token ∷ tokens)) in
      if-AllSound (is_command token) (some (ok ([], token ∷ tokens)))
        (first_then number (output_command c parsed) (segment number arity (token ∷ tokens)) rest)
        tt
        (first_then-AllSound (output_command c parsed) (segment number arity (token ∷ tokens)) rest
          (λ vs e.
            output_command-arity c parsed arity h
            ∙ ap ok (sym (segment-length arity (token ∷ tokens) vs e)))
          (segments-AllSound fuel c arity true (drop arity (token ∷ tokens)) h))

  -- The commands of an answer.
  abbrev pub AnswersSound : Option (Result (List (Command F))) → Type 0
  AnswersSound none = Unit
  AnswersSound (some (raise e)) = Unit
  AnswersSound (some (ok cs)) = All IsSound cs

  one_more-AnswersSound :
      (c : Command F) (later : Option (Result (List (Command F))))
      → IsSound c
      → AnswersSound later
      → AnswersSound (one_more_command number c later)
  one_more-AnswersSound c none h k = tt
  one_more-AnswersSound c (some (raise e)) h k = tt
  one_more-AnswersSound c (some (ok more)) h k = (h, k)

  appended-AnswersSound :
      (cs : List (Command F)) (later : Option (Result (List (Command F))))
      → All IsSound cs
      → AnswersSound later
      → AnswersSound (appended number cs later)
  appended-AnswersSound [] later h k = k
  appended-AnswersSound (c ∷ cs) later (h, hs) k =
      one_more-AnswersSound c (appended number cs later) h (appended-AnswersSound cs later hs k)

  made_or_raise-AnswersSound :
      (answer : Option (Result (List (Command F) × List String)))
      (next : List String → Option (Result (List (Command F))))
      → AllSound answer
      → ((rest : List String) → AnswersSound (next rest))
      → AnswersSound (made_or_raise number answer next)
  made_or_raise-AnswersSound none next h k = tt
  made_or_raise-AnswersSound (some (raise e)) next h k = tt
  made_or_raise-AnswersSound (some (ok ([], rest))) next h k = tt
  made_or_raise-AnswersSound (some (ok (made ∷ more, rest))) next h k =
      appended-AnswersSound (made ∷ more) (next rest) h (k rest)

  run_arity-AnswersSound :
      (arity : Result ℕ) (fuel : ℕ)
      (next : Option String → List String → Option (Result (List (Command F)))) (c : String)
      (tokens : List String)
      → arity_of c ≡ arity
      → ((command : Option String) (rest : List String) → AnswersSound (next command rest))
      → AnswersSound (run_arity number arity fuel next c tokens)
  run_arity-AnswersSound (raise e) fuel next c tokens h k = tt
  run_arity-AnswersSound (ok zero) fuel next c tokens h k =
      appended-AnswersSound (record { cmd = c; values = [] } ∷ []) (next none tokens) (h, tt)
        (k none tokens)
  run_arity-AnswersSound (ok (suc a)) fuel next c tokens h k =
      made_or_raise-AnswersSound (segments number fuel c (suc a) false tokens) (next (some c))
        (segments-AllSound fuel c (suc a) false tokens h) (k (some c))

  if-AnswersSound :
      (b : Bool) (x y : Option (Result (List (Command F))))
      → AnswersSound x
      → AnswersSound y
      → AnswersSound (if b then x else y)
  if-AnswersSound true x y h k = h
  if-AnswersSound false x y h k = k

  compile_tokens-AnswersSound :
      (fuel : ℕ) (command : Option String) (tokens : List String)
      → AnswersSound (compile_tokens number fuel command tokens)
  unfolding compile_tokens
  compile_tokens-AnswersSound zero command tokens = tt
  compile_tokens-AnswersSound (suc fuel) command [] = tt
  compile_tokens-AnswersSound (suc fuel) none (token ∷ tokens) =
      if-AnswersSound (is_command token)
        (run_command number fuel (compile_tokens number fuel) token tokens)
        (some (raise value_error))
        (run_arity-AnswersSound (arity_of token) fuel (compile_tokens number fuel) token tokens refl
          (compile_tokens-AnswersSound fuel))
        tt
  compile_tokens-AnswersSound (suc fuel) (some c) (token ∷ tokens) =
      if-AnswersSound (is_command token)
        (run_command number fuel (compile_tokens number fuel) token tokens)
        (run_command number fuel (compile_tokens number fuel) c (token ∷ tokens))
        (run_arity-AnswersSound (arity_of token) fuel (compile_tokens number fuel) token tokens refl
          (compile_tokens-AnswersSound fuel))
        (run_arity-AnswersSound (arity_of c) fuel (compile_tokens number fuel) c (token ∷ tokens)
          refl (compile_tokens-AnswersSound fuel))

  -- Whatever the tokens: every command that comes out has a known name and exactly as many values as
  -- a command of that name takes.
  pub compile-IsSound :
      (fuel : ℕ) (tokens : List String) (cs : List (Command F))
      → compile_tokens number fuel none tokens ≡ some (ok cs)
      → All IsSound cs
  compile-IsSound fuel tokens cs h =
      subst AnswersSound h (compile_tokens-AnswersSound fuel none tokens)
