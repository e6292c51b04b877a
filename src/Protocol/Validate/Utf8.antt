-- ===== src/Protocol/Validate/Utf8.antt =====
-- Rule 7: `isValidUtf8`, and the encodings of the Unicode scalar values.
--
-- The masks of a byte are written as quotients and remainders, and `cp << 6 | low` as a sum. The
-- test for a truncated sequence is that of the continuation bytes: both answer false.
pub mod Accepts
pub mod Meaning
use airusb_hub.Base.{
  ℕ, zero, suc, ◌+◌, ◌*◌, ◌/◌, ◌%◌, ◌≤◌, ◌<◌, ◌⊎◌, Bool, true, false, not, ◌&&◌, Option, none, some,
  List, [], ◌∷◌, ◌++◌, ltb, leb, ◌==◌, if◌then◌else◌, length,
}
use airusb_hub.Core.Status.{limit_exceeded, malformed_frame}
use airusb_hub.Protocol.Validate.{Verdict, r7_utf8_field, fail, pass}

-- The continuation bytes, as many as the lead announces.
pub continuation : ℕ → ℕ → List ℕ → Option (ℕ × List ℕ)
continuation zero cp s = some (cp, s)
continuation (suc extra) cp [] = none
continuation (suc extra) cp (cc ∷ s) =
    let more = continuation extra (cp * 64 + cc % 64) s in if cc / 64 == 2 then more else none

-- What the value must be: not overlong, in range, no surrogate.
pub fits : ℕ → Option (ℕ × List ℕ) → Option (List ℕ)
fits least none = none
fits least (some (cp, s)) =
    if ltb cp least
    then none
    else if ltb 0x10FFFF cp
    then none
    else if leb 0xD800 cp && leb cp 0xDFFF
    then none
    else some s

-- One turn of the loop: what is left behind the character, or `none` for `false`.
pub one_character : ℕ → List ℕ → Option (List ℕ)
unfolding continuation fits
one_character c s =
    if c == 0
    then none
    else if ltb c 0x80
    then some s
    else if c / 32 == 6
    then fits 0x80 (continuation 1 (c % 32) s)
    else if c / 16 == 14
    then fits 0x800 (continuation 2 (c % 16) s)
    else if c / 8 == 30
    then fits 0x10000 (continuation 3 (c % 8) s)
    else none

again : (List ℕ → Bool) → Option (List ℕ) → Bool
again next none = false
again next (some s) = next s

pub utf8_loop : ℕ → List ℕ → Bool
unfolding one_character again
utf8_loop fuel [] = true
utf8_loop zero (c ∷ s) = false
utf8_loop (suc fuel) (c ∷ s) = again (utf8_loop fuel) (one_character c s)

-- A character has a byte at least.
unfoldable pub is_valid_utf8 : List ℕ → Bool
unfolding utf8_loop
is_valid_utf8 s = utf8_loop (length s) s

-- A scalar value other than NUL, and its encoding.
abbrev pub IsScalar : ℕ → Type 0
IsScalar cp = (0 < cp) × (cp ≤ 0x10FFFF) × ((cp < 0xD800) ⊎ (0xDFFF < cp))

unfoldable pub utf8_of : ℕ → List ℕ
utf8_of cp =
    if ltb cp 0x80
    then cp ∷ []
    else if ltb cp 0x800
    then (0xC0 + cp / 64) ∷ (0x80 + cp % 64) ∷ []
    else if ltb cp 0x10000
    then (0xE0 + cp / 4096) ∷ (0x80 + cp / 64 % 64) ∷ (0x80 + cp % 64) ∷ []
    else (0xF0 + cp / 262144)
      ∷ (0x80 + cp / 4096 % 64)
      ∷ (0x80 + cp / 64 % 64)
      ∷ (0x80 + cp % 64)
      ∷ []

unfoldable pub text_of : List ℕ → List ℕ
unfolding utf8_of
text_of [] = []
text_of (cp ∷ cps) = utf8_of cp ++ text_of cps

-- wire::kUtf8FieldMax.
abbrev pub utf8_field_max : ℕ
utf8_field_max = 256

pub r7_utf8_field_check : List ℕ → Verdict
r7_utf8_field_check field =
    if ltb utf8_field_max (length field)
    then fail r7_utf8_field limit_exceeded
    else if not (is_valid_utf8 field)
    then fail r7_utf8_field malformed_frame
    else pass
