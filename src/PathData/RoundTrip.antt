-- ===== src/PathData/RoundTrip.antt =====
-- Paths written out as tokens, for compile_path_data (packages/vyne/src/vyne/path_data.py) to read.
use vyne.Common.{
  All, Bool, List, Option, Result, String, [], ap, arith, drop, false, if◌then◌else◌, length, none,
  ok, refl, some, suc, take, true, zero, ℕ, ◌+◌, ◌<◌, ◌∙◌, ◌∷◌, ◌≡◌,
}
use vyne.Common.Maps.{string_eq}
use vyne.PathData.{
  Command, any_command, compile_tokens, first_then, is_command, made_or_raise, numbers,
  output_command, run_arity, segment, segments,
}
use vyne.PathData.Soundness.{IsSound}

if-false : {A : Type 0} (b : Bool) (x y : A) → b ≡ false → (if b then x else y) ≡ y
if-false true x y h = absurd (ground arith)
if-false false x y h = refl

module _ {F : Type 0} (number : String → Result F) (show : F → String) where
  -- The texts of some values, in front of other tokens.
  abbrev shown : List F → List String → List String
  shown [] rest = rest
  shown (v ∷ vs) rest = show v ∷ shown vs rest

  -- A path written out, each command with its letter.
  abbrev pub tokens_of : List (Command F) → List String
  tokens_of [] = []
  tokens_of (c ∷ cs) = c.cmd ∷ shown c.values (tokens_of cs)

  -- A text of a value is no command and reads back.
  abbrev pub ReadsBack : Type 0
  ReadsBack = (v : F) → (number (show v) ≡ ok v) × (is_command (show v) ≡ false)

  abbrev pub IsWellFormed : Command F → Type 0
  IsWellFormed c = (is_command c.cmd ≡ true) × IsSound number c

  take-shown : (vs : List F) (rest : List String) → take (length vs) (shown vs rest) ≡ shown vs []
  take-shown [] rest = refl
  take-shown (v ∷ vs) rest = ap (λ ts. show v ∷ ts) (take-shown vs rest)

  drop-shown : (vs : List F) (rest : List String) → drop (length vs) (shown vs rest) ≡ rest
  drop-shown [] rest = refl
  drop-shown (v ∷ vs) rest = drop-shown vs rest

  length-shown :
      (vs : List F) (rest : List String) → length (shown vs rest) ≡ length vs + length rest
  length-shown [] rest = omega arith
  length-shown (v ∷ vs) rest = ground (arith, length-shown vs rest)

  module _ (back : ReadsBack) where
    numbers-shown : (vs : List F) → numbers number (shown vs []) ≡ ok vs
    unfolding numbers
    numbers-shown [] = refl
    numbers-shown (v ∷ vs) = rw ((back v).0, numbers-shown vs) refl

    any_command-shown : (vs : List F) → any_command (shown vs []) ≡ false
    any_command-shown [] = refl
    any_command-shown (v ∷ vs) = rw ((back v).1) (any_command-shown vs)

    segment-shown :
        (vs : List F) (rest : List String) → segment number (length vs) (shown vs rest) ≡ ok vs
    unfolding segment
    segment-shown vs rest =
        ground
          (arith, take-shown vs rest, any_command-shown vs, numbers-shown vs, length-shown vs rest)

    -- After its values, a command's loop stops at the next one.
    segments-stop :
        (fuel : ℕ) (c : String) (arity : ℕ) (cs : List (Command F))
        → All IsWellFormed cs
        → segments number (suc fuel) c arity true (tokens_of cs) ≡ some (ok ([], tokens_of cs))
    unfolding segments
    segments-stop fuel c arity [] h = refl
    segments-stop fuel c arity (next ∷ cs) (h, hs) = rw (h.0) refl

    output_command-first : (c : String) → output_command c false ≡ c
    output_command-first c = ground arith

    segments-shown :
        (fuel : ℕ) (c : String) (v : F) (vs : List F) (cs : List (Command F))
        → All IsWellFormed cs
        → segments number (suc (suc fuel)) c (length (v ∷ vs)) false (shown (v ∷ vs) (tokens_of cs))
          ≡ some (ok (record { cmd = c; values = v ∷ vs } ∷ [], tokens_of cs))
    unfolding segments
    segments-shown fuel c v vs cs h =
        if-false (is_command (show v)) (some (ok ([], shown (v ∷ vs) (tokens_of cs))))
          (first_then number (output_command c false)
            (segment number (length (v ∷ vs)) (shown (v ∷ vs) (tokens_of cs)))
            (segments number (suc fuel) c (length (v ∷ vs)) true
              (drop (length vs) (shown vs (tokens_of cs)))))
          (back v).1
        ∙ rw
            (
              drop-shown vs (tokens_of cs),
              segments-stop fuel c (suc (length vs)) cs h,
              output_command-first c,
              segment-shown (v ∷ vs) (tokens_of cs),
            )
            refl

    -- One command, by its values.
    run_arity-shown :
        (fuel : ℕ) (c : String) (vs : List F) (cs : List (Command F))
        (next : Option String → List String → Option (Result (List (Command F))))
        → ((command : Option String) → next command (tokens_of cs) ≡ some (ok cs))
        → All IsWellFormed cs
        → run_arity number (ok (length vs)) (suc (suc fuel)) next c (shown vs (tokens_of cs))
          ≡ some (ok (record { cmd = c; values = vs } ∷ cs))
    run_arity-shown fuel c [] cs next k h = rw (k none) refl
    run_arity-shown fuel c (v ∷ vs) cs next k h =
        ap (λ a. made_or_raise number a (next (some c))) (segments-shown fuel c v vs cs h)
        ∙ rw (k (some c)) refl

    compile_tokens-shown :
        (fuel : ℕ) (command : Option String) (cs : List (Command F))
        → All IsWellFormed cs
        → length cs < fuel
        → compile_tokens number (suc (suc fuel)) command (tokens_of cs) ≡ some (ok cs)
    unfolding compile_tokens
    compile_tokens-shown zero command cs h l = absurd (omega arith)
    compile_tokens-shown (suc fuel) command [] h l = refl
    compile_tokens-shown (suc fuel) command (c ∷ cs) ((k, s), hs) l =
        let next = compile_tokens number (suc (suc fuel)) in
        let rest : (command : Option String) → next command (tokens_of cs) ≡ some (ok cs) =
          λ command. compile_tokens-shown fuel command cs hs (omega arith) in
        let run = run_arity-shown fuel c.cmd c.values cs next rest hs in
        let whole =
          ap (λ a. run_arity number a (suc (suc fuel)) next c.cmd (shown c.values (tokens_of cs))) s
          ∙ run in
        rw k whole

  -- A path written out with a letter for each command reads back as it was, if every command has a
  -- known letter and as many values as it takes, a value's text reads back, and no value's text is a
  -- letter. Three units of fuel more than there are commands are enough.
  pub compile-tokens_of :
      (fuel : ℕ) (cs : List (Command F))
      → ReadsBack
      → All IsWellFormed cs
      → length cs < fuel
      → compile_tokens number (suc (suc fuel)) none (tokens_of cs) ≡ some (ok cs)
  compile-tokens_of fuel cs back h l = compile_tokens-shown back fuel none cs h l
