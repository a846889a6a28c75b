-- ===== src/Prelude/Text.antt =====
-- What the program asks of a text: whether it has a character that is not white space, and
-- whether it is a sha-256 digest in lowercase hexadecimal.
use Prim.Native.Nat.{ℕ, zero, suc, ◌+◌, ◌≤◌}
use Prim.Native.Char.{code}
use Prim.Native.String.append
use Prim.Native.String.{String, ◌++◌}
use mathlib.Core.Path.{◌≡◌, refl}
use mathlib.Core.Bool.{Bool, true, false, not, ◌&&◌, ◌||◌}
use native.Mathlib.Omega.{arith}
use text.Mathlib.TextLemmas.{nil-append, cons-append}
use cc_suite.Prelude.Tests.{leb, ◌==◌}

-- The white space that `str.strip` removes.
unfoldable pub is_space : ℕ → Bool
is_space c =
    leb 9 c && leb c 13
    || leb 28 c && leb c 32
    || c == 0x85
    || c == 0xa0
    || c == 0x1680
    || leb 0x2000 c && leb c 0x200a
    || c == 0x2028
    || c == 0x2029
    || c == 0x202f
    || c == 0x205f
    || c == 0x3000

-- `bool(value and value.strip())`
unfoldable pub nonblank : String → Bool
nonblank String.[] = false
nonblank (String.◌∷◌ c s) = not (is_space (code c)) || nonblank s

-- A non-empty text, the truth value of `str`.
unfoldable pub is_truthy : String → Bool
is_truthy String.[] = false
is_truthy (String.◌∷◌ c s) = true

is_hex : ℕ → Bool
is_hex c = leb 48 c && leb c 57 || leb 97 c && leb c 102

-- `$` of a pattern: the end, or a line feed that is the last character.
at_dollar : String → Bool
at_dollar String.[] = true
at_dollar (String.◌∷◌ c String.[]) = code c == 10
at_dollar (String.◌∷◌ c (String.◌∷◌ d s)) = false

hex_then : (String → Bool) → ℕ → String → Bool
unfolding is_hex
hex_then stop zero s = stop s
hex_then stop (suc n) String.[] = false
hex_then stop (suc n) (String.◌∷◌ c s) = is_hex (code c) && hex_then stop n s

is_end : String → Bool
is_end String.[] = true
is_end (String.◌∷◌ c s) = false

-- `re.compile(r"^[0-9a-f]{64}$").match(s)`
unfoldable pub sha256_match : String → Bool
unfolding hex_then at_dollar
sha256_match s = hex_then at_dollar 64 s

-- `re.compile(r"[0-9a-f]{64}").fullmatch(s)`
unfoldable pub sha256_fullmatch : String → Bool
unfolding hex_then is_end
sha256_fullmatch s = hex_then is_end 64 s

hex_then_mono : (n : ℕ) (s : String) → hex_then is_end n s ≡ true → hex_then at_dollar n s ≡ true
unfolding hex_then is_end at_dollar
hex_then_mono zero String.[] h = refl
hex_then_mono zero (String.◌∷◌ c s) h = cc
hex_then_mono (suc n) String.[] h = cc
hex_then_mono (suc n) (String.◌∷◌ c s) h = ground (arith, hex_then_mono n s)

-- A full match is a match.
pub fullmatch-match : (s : String) → sha256_fullmatch s ≡ true → sha256_match s ≡ true
unfolding sha256_match sha256_fullmatch
fullmatch-match s h = hex_then_mono 64 s h

-- A text that is not blank is not empty.
pub nonblank-is_truthy : (s : String) → nonblank s ≡ true → is_truthy s ≡ true
unfolding nonblank is_truthy
nonblank-is_truthy String.[] h = cc
nonblank-is_truthy (String.◌∷◌ c s) h = refl

-- `a + b` of two texts
abbrev pub str_append : String → String → String
str_append a b = a ++ b

pub nonblank-append_left : (s t : String) → nonblank s ≡ true → nonblank (str_append s t) ≡ true
unfolding nonblank
nonblank-append_left String.[] t h = cc
nonblank-append_left (String.◌∷◌ c s) t h =
    rw (append.cons c s t) (ground (arith, nonblank-append_left s t))

pub nonblank-append_right : (s t : String) → nonblank t ≡ true → nonblank (str_append s t) ≡ true
unfolding nonblank
nonblank-append_right String.[] t h = rw (append.nil t) h
nonblank-append_right (String.◌∷◌ c s) t h =
    rw (append.cons c s t) (ground (arith, nonblank-append_right s t h))

hex-not-space : (c : ℕ) → is_hex c ≡ true → is_space c ≡ false
unfolding is_hex is_space
hex-not-space c h = ground arith

-- A digest is not blank.
pub fullmatch-nonblank : (s : String) → sha256_fullmatch s ≡ true → nonblank s ≡ true
unfolding sha256_fullmatch nonblank
fullmatch-nonblank String.[] h = cc
fullmatch-nonblank (String.◌∷◌ c s) h = ground (arith, hex-not-space (code c))

-- The number of characters of a text, and its first characters (`text[:n]`).
abbrev pub str_length : String → ℕ
str_length String.[] = 0
str_length (String.◌∷◌ c s) = suc (str_length s)

abbrev pub str_take : ℕ → String → String
str_take zero s = String.[]
str_take (suc n) String.[] = String.[]
str_take (suc n) (String.◌∷◌ c s) = String.◌∷◌ c (str_take n s)

pub str_length-take : (n : ℕ) (s : String) → str_length (str_take n s) ≤ n
str_length-take zero s = omega arith
str_length-take (suc n) String.[] = omega arith
str_length-take (suc n) (String.◌∷◌ c s) = omega (arith, str_length-take n s)

pub str_length-append : (s t : String) → str_length (s ++ t) ≡ str_length s + str_length t
str_length-append String.[] t = rw (nil-append t) (omega arith)
str_length-append (String.◌∷◌ c s) t = rw (cons-append c s t) (omega (arith, str_length-append s t))
