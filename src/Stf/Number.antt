-- ===== src/Stf/Number.antt =====
-- `strtol` of the C library in base 10, with a `long` of 32 bits. Text is a list of characters
-- without the NUL at its end; a signed word is its bits, a number below 2 ^ 32.
pub mod Digits
use Prim.Native.Char.{code}
use Prim.Native.String.{String}
use zfstest.Prelude.{
  ℕ, ◌+◌, ◌-◌, ◌*◌, ◌^◌, ◌%◌, Bool, true, false, ◌&&◌, ◌||◌, List, [], ◌∷◌, ◌==◌, ltb, leb,
  if◌then◌else◌,
}

abbrev pub Text : Type 0
Text = List ℕ

-- The bytes of an ASCII literal.
abbrev pub codes : String → Text
codes String.[] = []
codes (String.◌∷◌ c s) = code c ∷ codes s

abbrev pub word : ℕ
word = 2 ^ 32

abbrev pub int_max : ℕ
int_max = 2 ^ 31 - 1

-- The bits of -2 ^ 31.
abbrev pub int_min : ℕ
int_min = 2 ^ 31

-- `errno` is ERANGE, or still 0.
pub record Parsed : Type 0 where
  pub value : ℕ
  pub rest : Text
  pub out_of_range : Bool

abbrev pub is_digit : ℕ → Bool
is_digit c = leb b'0' c && leb c b'9'

abbrev pub is_space : ℕ → Bool
is_space c = (c == b' ') || (leb 9 c && leb c 13)

-- All digits at the front, behind the number `n` read so far.
unfoldable pub scan : Text → ℕ → ℕ × Text
scan [] n = (n, [])
scan (c ∷ s) n = if is_digit c then scan s (n * 10 + (c - b'0')) else (n, c ∷ s)

abbrev pub clamp : Bool → ℕ → Text → Parsed
clamp negative n s =
    if negative
    then (if ltb int_min n
        then record { value = int_min; rest = s; out_of_range = true }
        else record { value = (word - n) % word; rest = s; out_of_range = false })
    else if ltb int_max n
    then record { value = int_max; rest = s; out_of_range = true }
    else record { value = n; rest = s; out_of_range = false }

-- Without a digit the result is 0 and the pointer stays at the start of the text.
unfoldable pub convert : Bool → Text → Text → Parsed
convert negative text [] = record { value = 0; rest = text; out_of_range = false }
convert negative text (c ∷ s) =
    if is_digit c
    then (let (n, rest) = scan (c ∷ s) 0 in clamp negative n rest)
    else record { value = 0; rest = text; out_of_range = false }

unfoldable pub signed : Text → Text → Parsed
unfolding convert
signed text [] = convert false text []
signed text (c ∷ s) =
    if c == b'-'
    then convert true text s
    else if c == b'+'
    then convert false text s
    else convert false text (c ∷ s)

unfoldable pub skip : Text → Text
skip [] = []
skip (c ∷ s) = if is_space c then skip s else c ∷ s

unfoldable pub strtol : Text → Parsed
unfolding signed skip scan
strtol text = signed text (skip text)
