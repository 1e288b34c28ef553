-- ===== src/Signer/Reason.antt =====
-- api/src/aioha-signer.ts: `hiveReason`, the words for a transaction that Hive refuses.
use Prim.Native.String.{String}
use lasse_cash_migration_to.Prelude.{
  begins_with, is_empty, ◌∷◌, [], ℕ, Bool, true, false, not, ◌&&◌, Option, none, some, List, map,
  ◌==◌, if◌then◌else◌, length, drop, any, Text, codes, trim, is_space,
}

-- A text without its tags, and the same for what stands behind the first `>` of it, if there is one.
abbrev pub begins_tag : Text → Bool
begins_tag [] = false
begins_tag (c ∷ s) = not (c == b'>')

abbrev pub next_tag : Bool → ℕ → Text → Option Text → Text
next_tag false c rest behind_tag = c ∷ rest
next_tag true c rest none = c ∷ rest
next_tag true c rest (some t) = b' ' ∷ t

abbrev pub strip_both : Text → Text × Option Text
strip_both [] = ([], none)
strip_both (c ∷ s) =
    let (rest, behind_tag) = strip_both s in
    (
      next_tag (c == b'<' && begins_tag s) c rest behind_tag,
      if c == b'>' then some rest else behind_tag,
    )

-- `s.replace(/<[^>]+>/g, " ")`
unfoldable pub without_tags : Text → Text
without_tags s = (strip_both s).0

-- `s.replace(/\s+/g, " ")`, behind white space or not.
abbrev pub one_space : Bool → Text → Text
one_space after [] = []
one_space after (c ∷ s) =
    let behind_space = one_space true s in
    let behind_other = one_space false s in
    if is_space c then if after then behind_space else b' ' ∷ behind_space else c ∷ behind_other

unfoldable pub collapse : Text → Text
collapse s = one_space false s

-- What stands behind the first place of a word, in letters of any case.
abbrev pub behind_word : Text → Text → Option Text
behind_word word [] = none
behind_word word (c ∷ s) =
    let later = behind_word word s in
    if begins_with word (c ∷ s) then some (drop (length word) (c ∷ s)) else later

-- The words in this order: `/a.*b.*c/i` on a text of one line.
abbrev pub in_order : List Text → Option Text → Bool
in_order words none = false
in_order [] (some s) = true
in_order (word ∷ words) (some s) = in_order words (behind_word word s)

abbrev pub matches : List String → Text → Bool
matches words s = in_order (map codes words) (some s)

-- A pattern of `hiveReason` and what it says.
abbrev reasons : List (List (List String) × Text)
reasons =
    (
      ("identical to this vote" ∷ []) ∷ ("vote is the same" ∷ []) ∷ [],
      codes
          "you have already voted on this at that weight on Hive — move the slider to a different weight and cast again. A vote is replaced by re-voting, never removed.",
    )
    ∷ (
      ("only" ∷ "vote" ∷ "once" ∷ [])
          ∷ ("cannot vote again" ∷ [])
          ∷ ("vote_regeneration" ∷ [])
          ∷ [],
      codes "Hive is rate-limiting your votes — wait a few seconds and cast again.",
    )
    ∷ (
      ("exceeded" ∷ "bandwidth" ∷ []) ∷ ("resource credits" ∷ []) ∷ ("insufficient rc" ∷ []) ∷ [],
      codes
          "your Hive account is out of resource credits for now. Hive RC refills on its own over the next hours.",
    )
    ∷ (
      ("comment" ∷ "same as before" ∷ []) ∷ ("comment already exists" ∷ []) ∷ [],
      codes
          "this text is identical to what you already published — change something and try again.",
    )
    ∷ (
      ("missing required posting authority" ∷ []) ∷ ("missing required active authority" ∷ []) ∷ [],
      codes
          "your wallet did not grant the authority this needs. Sign in again, or unlock the wallet and retry.",
    )
    ∷ []

abbrev pub explain : Text → List (List (List String) × Text) → Text
explain words [] = words
explain words ((patterns, reason) ∷ rest) =
    if any (λ pattern. matches pattern words) patterns then reason else explain words rest

-- `hiveReason`
unfoldable pub hive_reason : Option Text → Text
hive_reason raw =
    let words = trim (collapse (without_tags (elim raw [ none ↦ [] | some s ↦ s ]))) in
    if is_empty words then codes "rejected" else explain words reasons
