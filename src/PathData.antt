-- ===== src/PathData.antt =====
-- packages/vyne/src/vyne/path_data.py: the commands of an SVG path, from the tokens that a regular
-- expression finds. A float is of a type that is a parameter.
use vyne.Common.{
  Bool, List, Option, Result, String, [], drop, false, if◌then◌else◌, length, ltb, none, not, ok,
  raise, raise_if, some, suc, take, true, value_error, zero, ℕ, ◌==◌, ◌>>=◌, ◌>>◌, ◌||◌, ◌∷◌, ◌&&◌,
  key_error,
}
use vyne.Common.Maps.{among, lookup, string_eq}
pub mod Termination
pub mod Soundness
pub mod RoundTrip
mod Examples

-- `PATH_COMMAND_ARITY`
abbrev pub path_command_arity : List (String × ℕ)
path_command_arity =
    ("M", 2)
    ∷ ("m", 2)
    ∷ ("L", 2)
    ∷ ("l", 2)
    ∷ ("C", 6)
    ∷ ("c", 6)
    ∷ ("Q", 4)
    ∷ ("q", 4)
    ∷ ("Z", 0)
    ∷ ("z", 0)
    ∷ []

-- `_COMMANDS`
abbrev pub commands : List String
commands = "M" ∷ "m" ∷ "L" ∷ "l" ∷ "C" ∷ "c" ∷ "Q" ∷ "q" ∷ "Z" ∷ "z" ∷ []

-- `_is_command`
abbrev pub is_command : String → Bool
is_command token = among token commands

-- `command.upper()` of a command.
abbrev pub upper : String → String
upper command =
    elim (lookup {V = String} command
      (("m", "M") ∷ ("l", "L") ∷ ("c", "C") ∷ ("q", "Q") ∷ ("z", "Z") ∷ [])) [
        | none ↦ command
        | some letter ↦ letter
      ]

-- `PATH_COMMAND_ARITY[letter]`
unfoldable pub arity_at : String → Result ℕ
unfolding lookup
arity_at letter = elim (lookup letter path_command_arity) [
  | none ↦ raise key_error
  | some arity ↦ ok arity
]

unfoldable pub arity_of : String → Result ℕ
unfolding arity_at
arity_of command = arity_at (upper command)

pub record Command (F : Type 0) : Type 0 where
  pub cmd : String
  pub values : List F

-- Whether one of the first tokens is a command.
abbrev pub any_command : List String → Bool
any_command [] = false
any_command (token ∷ tokens) = is_command token || any_command tokens

-- After the first segment of a move, a line.
abbrev pub output_command : String → Bool → String
output_command command parsed =
    if string_eq.beq (upper command) "M" && parsed
    then (if string_eq.beq command "M" then "L" else "l")
    else command

module _ {F : Type 0} (number : String → Result F) where
  -- `[_number(token) for token in tokens]`
  unfoldable pub numbers : List String → Result (List F)
  numbers [] = ok []
  numbers (token ∷ tokens) = do value ← number token; values ← numbers tokens; ok (value ∷ values)

  -- The values of one segment: the next so many tokens, of which none is a command.
  unfoldable pub segment : ℕ → List String → Result (List F)
  unfolding numbers
  segment arity tokens = do
    raise_if (ltb (length tokens) arity || any_command (take arity tokens)) value_error
    numbers (take arity tokens)

  -- A segment's command in front of what the other rounds append.
  abbrev pub first_then :
      String
      → Result (List F)
      → Option (Result (List (Command F) × List String))
      → Option (Result (List (Command F) × List String))
  first_then cmd (raise e) rest = some (raise e)
  first_then cmd (ok values) none = none
  first_then cmd (ok values) (some (raise e)) = some (raise e)
  first_then cmd (ok values) (some (ok (more, left))) =
      some (ok (record { cmd = cmd; values = values } ∷ more, left))

  -- The inner loop, from whether a segment is parsed: the commands it appends and the tokens it
  -- leaves. Without an answer, the fuel has run out.
  unfoldable pub segments :
      ℕ → String → ℕ → Bool → List String → Option (Result (List (Command F) × List String))
  unfolding segment
  segments zero command arity parsed tokens = none
  segments (suc fuel) command arity parsed [] = some (ok ([], []))
  segments (suc fuel) command arity parsed (token ∷ tokens) =
      let rest = segments fuel command arity true (drop arity (token ∷ tokens)) in
      if is_command token
      then some (ok ([], token ∷ tokens))
      else first_then (output_command command parsed) (segment arity (token ∷ tokens)) rest

  abbrev pub one_more_command :
      Command F → Option (Result (List (Command F))) → Option (Result (List (Command F)))
  one_more_command c none = none
  one_more_command c (some (raise e)) = some (raise e)
  one_more_command c (some (ok more)) = some (ok (c ∷ more))

  -- What the loop appends in front of what it appends later.
  abbrev pub appended :
      List (Command F) → Option (Result (List (Command F))) → Option (Result (List (Command F)))
  appended [] later = later
  appended (c ∷ cs) later = one_more_command c (appended cs later)

  -- One command with its segments, and what follows. Without a segment it raises.
  abbrev pub made_or_raise :
      Option (Result (List (Command F) × List String))
      → (List String → Option (Result (List (Command F))))
      → Option (Result (List (Command F)))
  made_or_raise none next = none
  made_or_raise (some (raise e)) next = some (raise e)
  made_or_raise (some (ok ([], rest))) next = some (raise value_error)
  made_or_raise (some (ok (made ∷ more, rest))) next = appended (made ∷ more) (next rest)

  -- The body of the outer loop past the choice of the command, by its arity; the loop goes on with
  -- `next`.
  abbrev pub run_arity :
      Result ℕ
      → ℕ
      → (Option String → List String → Option (Result (List (Command F))))
      → String
      → List String
      → Option (Result (List (Command F)))
  run_arity (raise e) fuel next c tokens = some (raise e)
  run_arity (ok zero) fuel next c tokens =
      appended (record { cmd = c; values = [] } ∷ []) (next none tokens)
  run_arity (ok (suc a)) fuel next c tokens =
      made_or_raise (segments fuel c (suc a) false tokens) (next (some c))

  unfoldable pub run_command :
      ℕ
      → (Option String → List String → Option (Result (List (Command F))))
      → String
      → List String
      → Option (Result (List (Command F)))
  unfolding arity_of segments
  run_command fuel next c tokens = run_arity (arity_of c) fuel next c tokens

  -- The outer loop, from the current command.
  unfoldable pub compile_tokens :
      ℕ → Option String → List String → Option (Result (List (Command F)))
  unfolding run_command
  compile_tokens zero command tokens = none
  compile_tokens (suc fuel) command [] = some (ok [])
  compile_tokens (suc fuel) command (token ∷ tokens) =
      let run = run_command fuel (compile_tokens fuel) in
      if is_command token
      then run token tokens
      else (elim command [ none ↦ some (raise value_error) | some c ↦ run c (token ∷ tokens) ])
