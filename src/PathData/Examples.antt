-- ===== src/PathData/Examples.antt =====
-- Paths (packages/vyne/src/vyne/path_data.py) with two coordinates, zero and one.
use vyne.Common.{
  All, Bool, List, Result, String, [], arith, false, if◌then◌else◌, none, ok, raise, refl, some,
  true, value_error, ◌∷◌, ◌≡◌,
}
use vyne.Common.Maps.{string_eq}
use vyne.PathData.{Command, arity_at, arity_of, compile_tokens}
use vyne.PathData.RoundTrip.{ReadsBack, compile-tokens_of, tokens_of}
use vyne.PathData.Soundness.{IsSound, compile-IsSound}
use vyne.PathData.Termination.{compile-terminates}

abbrev number : String → Result Bool
number token =
    if string_eq.beq token "1"
    then ok true
    else (if string_eq.beq token "0" then ok false else raise value_error)

abbrev show : Bool → String
show true = "1"
show false = "0"

show-ReadsBack : ReadsBack number show
show-ReadsBack true = (refl, refl)
show-ReadsBack false = (refl, refl)

abbrev triangle : List (Command Bool)
triangle =
    record { cmd = "M"; values = false ∷ false ∷ [] }
    ∷ record { cmd = "l"; values = true ∷ false ∷ [] }
    ∷ record { cmd = "Z"; values = [] }
    ∷ []

-- The same with the line left implicit.
abbrev implicit : List String
implicit = "m" ∷ "0" ∷ "0" ∷ "1" ∷ "0" ∷ "Z" ∷ []

compile-tokens_of_example :
    compile_tokens number 6 none (tokens_of number show triangle) ≡ some (ok triangle)
unfolding arity_of arity_at
compile-tokens_of_example =
    compile-tokens_of number show 4 triangle show-ReadsBack
      ((refl, refl), ((refl, refl), ((refl, refl), tt))) (omega arith)

compile-IsSound_example : All (IsSound number) (
    record { cmd = "m"; values = false ∷ false ∷ [] }
    ∷ record { cmd = "l"; values = true ∷ false ∷ [] }
    ∷ record { cmd = "Z"; values = [] }
    ∷ [])
unfolding compile_tokens
compile-IsSound_example =
    compile-IsSound number 13 implicit
      (record { cmd = "m"; values = false ∷ false ∷ [] }
        ∷ record { cmd = "l"; values = true ∷ false ∷ [] }
        ∷ record { cmd = "Z"; values = [] }
        ∷ [])
      refl

compile-terminates_example :
    (answer : Result (List (Command Bool))) × (compile_tokens number 13 none
        ("1" ∷ "M" ∷ "0" ∷ "z" ∷ "Q" ∷ "0" ∷ [])
      ≡ some answer)
compile-terminates_example =
    compile-terminates number 13 ("1" ∷ "M" ∷ "0" ∷ "z" ∷ "Q" ∷ "0" ∷ []) (omega arith)

incomplete : compile_tokens number 9 none ("M" ∷ "0" ∷ "1" ∷ "1" ∷ []) ≡ some (raise value_error)
unfolding compile_tokens
incomplete = refl

after_close : compile_tokens number 9 none ("z" ∷ "1" ∷ []) ≡ some (raise value_error)
unfolding compile_tokens
after_close = refl
