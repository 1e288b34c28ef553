-- ===== src/Replies/Bots.antt =====
-- api/src/magi-backend.ts: `isBotCommandsOnly`, replies that only call tip bots.
use lasse_cash_migration_to.Prelude.{
  begins_with, behind, is_empty, ◌∷◌, [], ℕ, Bool, true, false, not, ◌&&◌, ◌||◌, Option, none, some,
  List, map, leb, ◌==◌, if◌then◌else◌, drop, filter, all, Text, codes, is_digit, trim, split,
  is_space,
}

-- `\w`
abbrev pub is_word : ℕ → Bool
is_word c = is_digit c || (leb b'a' c && leb c b'z') || (leb b'A' c && leb c b'Z') || c == b'_'

-- Where a run of commands, `(?:!\w+(?:\s+\S+)?\s*)+`, can stand: before a command, behind its mark, in
-- its name, in the space behind the name, in its argument, in the space behind that.
pub data Place : Type 0 where
  start : Place
  mark : Place
  name : Place
  gap : Place
  argument : Place
  behind_argument : Place

-- Does the rest of the line match from this place on?
unfoldable pub runs : Place → Text → Bool
runs start [] = false
runs mark [] = false
runs name [] = true
runs gap [] = true
runs argument [] = true
runs behind_argument [] = true
runs start (c ∷ s) = let r = runs mark s in c == b'!' && r
runs mark (c ∷ s) = let r = runs name s in is_word c && r
runs name (c ∷ s) =
    let more = runs name s in
    let space = runs gap s in
    let again = runs mark s in (is_word c && more) || (is_space c && space) || (c == b'!' && again)
runs gap (c ∷ s) =
    let space = runs gap s in
    let arg = runs argument s in
    let again = runs mark s in
    (is_space c && space) || (not (is_space c) && arg) || (c == b'!' && again)
runs argument (c ∷ s) =
    let more = runs argument s in
    let space = runs behind_argument s in
    let again = runs mark s in
    (not (is_space c) && more) || (is_space c && space) || (c == b'!' && again)
runs behind_argument (c ∷ s) =
    let space = runs behind_argument s in
    let again = runs mark s in (is_space c && space) || (c == b'!' && again)

unfoldable pub is_commands : Text → Bool
is_commands line = runs start line

abbrev begins_word : Text → Bool
begins_word [] = false
begins_word (c ∷ s) = is_word c

-- `/^posted using\b/i`
unfoldable pub is_footer : Text → Bool
is_footer line = begins_with (codes "posted using") line && not (begins_word (drop 12 line))

-- What stands behind the first such character, if there is one.
abbrev pub behind_char : ℕ → Text → Option Text
behind_char stop [] = none
behind_char stop (c ∷ s) = let later = behind_char stop s in if c == stop then some s else later

abbrev ends_here : Option Text → Bool
ends_here none = false
ends_here (some rest) = is_empty rest

-- `\([^)]*\)$` and `/^!\[[^\]]*\]\([^)]*\)$/`
abbrev is_target : Option Text → Bool
is_target none = false
is_target (some []) = false
is_target (some (c ∷ s)) = c == b'(' && ends_here (behind_char b')' s)

abbrev image_alt : Option Text → Bool
image_alt none = false
image_alt (some s) = is_target (behind_char b']' s)

unfoldable pub is_image : Text → Bool
is_image line = image_alt (behind (codes "![") line)

-- `/^https?:\/\/\S+$/`
abbrev is_address : Option Text → Bool
is_address none = false
is_address (some s) = not (is_empty s) && all (λ c. not (is_space c)) s

unfoldable pub is_link : Text → Bool
is_link line =
    is_address (behind (codes "http://") line) || is_address (behind (codes "https://") line)

-- The lines that are not empty once trimmed; a `\r` at the end of one is white space.
abbrev pub lines_of : Text → List Text
lines_of text = filter (λ l. not (is_empty l)) (map trim (split b'\n' text))

-- Every line is a command, a footer, an image or a link, and one of them is a command.
abbrev pub only_commands : Bool → List Text → Bool
only_commands any_command [] = any_command
only_commands any_command (l ∷ lines) =
    let after_command = only_commands true lines in
    let after_other = only_commands any_command lines in
    if is_commands l
    then after_command
    else if is_footer l || is_image l || is_link l
    then after_other
    else false

-- `isBotCommandsOnly`
unfoldable pub is_bot_commands_only : Text → Bool
is_bot_commands_only text = only_commands false (lines_of text)
