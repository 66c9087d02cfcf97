-- ===== src/Output/Lines.antt =====
-- internal/output/render.go: the calls that print, and what they share.
use Prim.Native.String.{◌++◌ as text_append}
use lab_env.Common.{ℕ, zero, suc, String, Bool, List, [], ◌∷◌, if◌then◌else◌}
use lab_env.Common.Errors.{Args, nil, text}
use lab_env.Cmd.{Value}

-- One call of Fprintf or Fprintln, with its format and arguments, or a value that encoding/json
-- prints.
pub data Line (S : Type 0) : Type 0 where
  printf : String → Args → Line S
  encoded : Value S → Line S

-- `fmt.Fprintln` of a constant.
abbrev pub println : {S : Type 0} → String → Line S
println s = printf "%s\n" (text s nil)

-- `fmt.Fprintln(w)`
abbrev pub blank_line : {S : Type 0} → Line S
blank_line = printf "\n" nil

-- `strings.Repeat`
unfoldable pub repeat : String → ℕ → String
repeat s zero = ""
repeat s (suc n) = text_append s (repeat s n)

-- `strings.Join(texts, ", ")`
unfoldable pub joined_by_comma : List String → String
joined_by_comma [] = ""
joined_by_comma (s ∷ []) = s
joined_by_comma (s ∷ t ∷ rest) = text_append s (text_append ", " (joined_by_comma (t ∷ rest)))

abbrev pub sep : String
sep = "──────────────────────────────────────────"

abbrev pub rule : {S : Type 0} → Line S
rule = println (repeat "─" 74)

-- `%v` of a bool
abbrev pub bool_text : Bool → String
bool_text b = if b then "true" else "false"
