-- ===== src/Prelude/Texts.antt =====
-- JavaScript strings as lists of code units, with the string operations that the code calls.
use Prim.Native.Nat.{◌+◌, ℕ, ◌-◌}
use Prim.Native.Char.{code}
use Prim.Native.String.{String}
use mathlib.Core.Logic.{inl, inr}
use mathlib.Core.Path.{◌≡◌, refl}
use mathlib.Core.Option.{Option, none, some}
use mathlib.Core.Bool.{Bool, true, false, not, ◌&&◌, ◌||◌}
use mathlib.Core.List.{List, [], ◌∷◌, ◌++◌}
use native.Mathlib.Omega.{arith}
use lasse_cash_migration_to.Prelude.Tests.{Bool-cases, leb, ◌==◌, ==_refl, if◌then◌else◌}
use lasse_cash_migration_to.Prelude.Lists.{length, replicate, all}

abbrev pub Text : Type 0
Text = List ℕ

-- The code units of a literal.
abbrev pub codes : String → Text
codes String.[] = []
codes (String.◌∷◌ c s) = code c ∷ codes s

-- `===` on strings.
abbrev pub text_eq : Text → Text → Bool
text_eq [] [] = true
text_eq [] (y ∷ t) = false
text_eq (x ∷ s) [] = false
text_eq (x ∷ s) (y ∷ t) = x == y && text_eq s t

pub text_eq→eq : (s t : Text) → text_eq s t ≡ true → s ≡ t
text_eq→eq [] [] h = refl
text_eq→eq [] (y ∷ t) h = cc
text_eq→eq (x ∷ s) [] h = cc
text_eq→eq (x ∷ s) (y ∷ t) h = ground (arith, text_eq→eq s t)

pub text_eq_refl : (s : Text) → text_eq s s ≡ true
text_eq_refl [] = refl
text_eq_refl (x ∷ s) = ground (arith, text_eq_refl s)

pub text_eq_sym : (s t : Text) → text_eq s t ≡ true → text_eq t s ≡ true
text_eq_sym s t h = let e : s ≡ t = text_eq→eq s t h in rw e (text_eq_refl t)

-- Two texts, one equal to a third and one not.
pub text_eq_apart : (s t u : Text) → text_eq s t ≡ false → text_eq s u ≡ true → text_eq t u ≡ false
text_eq_apart s t u differs same = elim (Bool-cases (text_eq t u)) [
  | inr apart ↦ apart
  | inl equal ↦
      let back = text_eq_sym t u equal in
      let e : s ≡ u = text_eq→eq s u same in
      let e' : u ≡ t = text_eq→eq u t back in
      let k : text_eq t t ≡ false = rw (e, e') at differs in absurd (cc (text_eq_refl t))
]

-- `\d`: the ASCII digits.
abbrev pub is_digit : ℕ → Bool
is_digit c = leb b'0' c && leb c b'9'

-- The white space and line terminators that `trim` removes.
unfoldable pub is_space : ℕ → Bool
is_space c =
    (leb 9 c && leb c 13)
    || c == 32
    || c == 0xa0
    || c == 0x1680
    || (leb 0x2000 c && leb c 0x200a)
    || c == 0x2028
    || c == 0x2029
    || c == 0x202f
    || c == 0x205f
    || c == 0x3000
    || c == 0xfeff

abbrev pub is_empty : Text → Bool
is_empty [] = true
is_empty (c ∷ s) = false

trim_start : Text → Text
trim_start [] = []
trim_start (c ∷ s) = if is_space c then trim_start s else c ∷ s

trim_end : Text → Text
trim_end [] = []
trim_end (c ∷ s) = let rest = trim_end s in if is_empty rest && is_space c then [] else c ∷ rest

-- `s.trim()`
unfoldable pub trim : Text → Text
unfolding trim_start trim_end
trim s = trim_end (trim_start s)

-- A text whose characters are none of them white space.
abbrev pub is_visible : ℕ → Bool
is_visible c = not (is_space c)

pub is_digit-visible : (c : ℕ) → is_digit c ≡ true → is_visible c ≡ true
unfolding is_space
is_digit-visible c h = ground arith

trim_start_visible : (s : Text) → all is_visible s ≡ true → trim_start s ≡ s
unfolding trim_start
trim_start_visible [] h = refl
trim_start_visible (c ∷ s) h = ground arith

trim_end_visible : (s : Text) → all is_visible s ≡ true → trim_end s ≡ s
unfolding trim_end
trim_end_visible [] h = refl
trim_end_visible (c ∷ s) h = ground (arith, trim_end_visible s)

-- `trim` leaves a text with no white space alone.
pub trim_visible : (s : Text) → all is_visible s ≡ true → trim s ≡ s
unfolding trim
trim_visible s h = rw (trim_start_visible s h) (trim_end_visible s h)

-- A character in front of the first part.
abbrev push_char : ℕ → List Text → List Text
push_char c [] = (c ∷ []) ∷ []
push_char c (p ∷ ps) = (c ∷ p) ∷ ps

-- `s.split(sep)` for a separator of one character.
unfoldable pub split : ℕ → Text → List Text
split sep [] = [] ∷ []
split sep (c ∷ s) = let rest = split sep s in if c == sep then [] ∷ rest else push_char c rest

-- No character is the separator.
abbrev pub lacks : ℕ → Text → Bool
lacks sep = all (λ c. not (c == sep))

pub split-lacks : (sep : ℕ) (s : Text) → lacks sep s ≡ true → split sep s ≡ s ∷ []
unfolding split
split-lacks sep [] h = refl
split-lacks sep (c ∷ s) h = ground (arith, split-lacks sep s)

pub split-append :
    (sep : ℕ) (s t : Text) → lacks sep s ≡ true → split sep (s ++ sep ∷ t) ≡ s ∷ split sep t
unfolding split
split-append sep [] t h = ground (arith, ==_refl sep)
split-append sep (c ∷ s) t h = ground (arith, split-append sep s t)

-- What stands before and behind the first separator.
pub parts_equal :
    (sep : ℕ) (a p b q : Text)
    → lacks sep a ≡ true
    → lacks sep b ≡ true
    → a ++ sep ∷ p ≡ b ++ sep ∷ q
    → (a ≡ b) × (p ≡ q)
parts_equal sep [] p [] q ha hb e = (refl, cc)
parts_equal sep [] p (y ∷ b) q ha hb e = let k : sep ≡ y = cc in absurd (ground arith)
parts_equal sep (x ∷ a) p [] q ha hb e = let k : x ≡ sep = cc in absurd (ground arith)
parts_equal sep (x ∷ a) p (y ∷ b) q ha hb e =
    let k : x ≡ y = cc in
    let k' : a ++ sep ∷ p ≡ b ++ sep ∷ q = cc in
    let (same, rest) = parts_equal sep a p b q (ground arith) (ground arith) k' in (cc, rest)

-- `s.padStart(n, c)`
unfoldable pub pad_start : ℕ → ℕ → Text → Text
pad_start n c s = replicate (n - length s) c ++ s

-- `s.startsWith(p)`
abbrev pub starts_with : Text → Text → Bool
starts_with [] s = true
starts_with (c ∷ p) [] = false
starts_with (c ∷ p) (d ∷ s) = c == d && starts_with p s

-- A lower-case letter for a capital.
abbrev pub lower : ℕ → ℕ
lower c = if leb b'A' c && leb c b'Z' then c + 32 else c

-- Does the text begin with, and does it contain, the lower-case words, in letters of any case?
abbrev pub begins_with : Text → Text → Bool
begins_with [] s = true
begins_with (w ∷ words) [] = false
begins_with (w ∷ words) (c ∷ s) = w == lower c && begins_with words s

abbrev pub contains : Text → Text → Bool
contains words [] = begins_with words []
contains words (c ∷ s) = begins_with words (c ∷ s) || contains words s

-- `s.includes(p)`
abbrev pub includes : Text → Text → Bool
includes p [] = starts_with p []
includes p (c ∷ s) = starts_with p (c ∷ s) || includes p s

-- What stands behind a prefix, where a text has it.
abbrev pub behind : Text → Text → Option Text
behind [] s = some s
behind (c ∷ p) [] = none
behind (c ∷ p) (d ∷ s) = if c == d then behind p s else none

-- `s.replace(/^p/, "")`
abbrev pub without_prefix : Text → Text → Text
without_prefix p s = elim (behind p s) [ none ↦ s | some rest ↦ rest ]
