-- ===== src/Common/Text.antt =====
-- C strings as lists of bytes: literals in UTF-8, decimal numbers, bounded printing and copying.
use Prim.Native.Nat.{ℕ, zero, suc, ◌+◌, ◌-◌, ◌*◌, ◌/◌, ◌%◌}
use Prim.Native.Char.{code}
use Prim.Native.String.{String}
use mathlib.Core.Path.{◌≡◌, refl}
use mathlib.Core.Bool.{Bool, true, false, ◌&&◌, ◌||◌}
use mathlib.Core.Option.{Option, none, some}
use mathlib.Core.List.{List, [], ◌∷◌, ◌++◌}
use native.Mathlib.Omega.{arith}
use as3chat.Common.Tests.{ltb, leb, ◌==◌, ==_refl, if◌then◌else◌}
use as3chat.Common.Int.{ℤ, pos, negsuc}
use as3chat.Common.Lists.{length, take, drop}

abbrev pub Bytes : Type 0
Bytes = List ℕ

-- The UTF-8 bytes of a code point.
utf8 : ℕ → Bytes
utf8 c =
    if ltb c 0x80
    then c ∷ []
    else if ltb c 0x800
    then (0xc0 + c / 64) ∷ (0x80 + c % 64) ∷ []
    else if ltb c 0x1_0000
    then (0xe0 + c / 4096) ∷ (0x80 + c / 64 % 64) ∷ (0x80 + c % 64) ∷ []
    else (0xf0 + c / 0x4_0000)
      ∷ (0x80 + c / 4096 % 64)
      ∷ (0x80 + c / 64 % 64)
      ∷ (0x80 + c % 64)
      ∷ []

-- A string literal of the source, which is in UTF-8.
unfoldable pub lit : String → Bytes
unfolding utf8
lit String.[] = []
lit (String.◌∷◌ c s) = utf8 (code c) ++ lit s

digits : ℕ → ℕ → Bytes → Bytes
digits zero n rest = rest
digits (suc k) n rest =
    let more = digits k (n / 10) ((0x30 + n % 10) ∷ rest) in
    if ltb n 10 then (0x30 + n) ∷ rest else more

-- `%d`.
unfoldable pub decimal : ℤ → Bytes
unfolding digits
decimal (pos n) = digits (suc n) n []
decimal (negsuc n) = b'-' ∷ digits (suc (suc n)) (suc n) []

-- `snprintf(buffer, size, …)`: what the buffer holds as a string.
unfoldable pub snprintf : ℕ → Bytes → Bytes
snprintf size text = take (size - 1) text

-- The string that an array holds: its bytes before the first NUL.
unfoldable pub c_string : Bytes → Bytes
c_string [] = []
c_string (b ∷ bs) = if b == 0 then [] else b ∷ c_string bs

-- Whether an array holds a NUL.
unfoldable pub has_nul : Bytes → Bool
has_nul [] = false
has_nul (b ∷ bs) = if b == 0 then true else has_nul bs

-- `strncpy(array, text, n)`: pads with NULs, and leaves no NUL where the text fills the array.
unfoldable pub strncpy : ℕ → Bytes → Bytes
strncpy zero text = []
strncpy (suc n) [] = 0 ∷ strncpy n []
strncpy (suc n) (b ∷ bs) = b ∷ strncpy n bs

-- `strcmp(a, b) == 0`.
unfoldable pub str_eq : Bytes → Bytes → Bool
str_eq [] [] = true
str_eq (a ∷ as') (b ∷ bs) = (a == b) && str_eq as' bs
str_eq _ _ = false

-- `strncmp(a, b, n) == 0`.
unfoldable pub str_eq_n : ℕ → Bytes → Bytes → Bool
str_eq_n zero a b = true
str_eq_n (suc n) [] [] = true
str_eq_n (suc n) (a ∷ as') (b ∷ bs) = (a == b) && str_eq_n n as' bs
str_eq_n (suc n) _ _ = false

is_space : ℕ → Bool
is_space b = (b == 32) || (leb 9 b && leb b 13)

is_digit : ℕ → Bool
is_digit b = leb 0x30 b && leb b 0x39

digits_value : ℕ → Bytes → ℕ
unfolding is_digit
digits_value value [] = value
digits_value value (b ∷ bs) =
    let more = digits_value (value * 10 + (b - 0x30)) bs in if is_digit b then more else value

negated : ℕ → ℤ
negated zero = pos 0
negated (suc n) = negsuc n

signed : Bytes → ℤ
unfolding digits_value negated
signed [] = pos 0
signed (b ∷ bs) =
    if b == b'-'
    then negated (digits_value 0 bs)
    else if b == b'+'
    then pos (digits_value 0 bs)
    else pos (digits_value 0 (b ∷ bs))

-- `atoi`: white space, a sign, digits, and whatever follows. A value outside an `int` is undefined in
-- C, and is given as it stands.
unfoldable pub atoi : Bytes → ℤ
unfolding is_space signed
atoi [] = pos 0
atoi (b ∷ bs) = let rest = atoi bs in if is_space b then rest else signed (b ∷ bs)

-- `strncat(array, text, n)` in an array of `size` bytes: the array behind it, or `none` where the array
-- has no NUL or is too short.
unfoldable pub strncat : ℕ → Bytes → Bytes → ℕ → Option Bytes
unfolding has_nul c_string strncpy
strncat size array text n =
    let joined = c_string array ++ take n text in
    if has_nul array && ltb (length joined) size then some (strncpy size joined) else none

pub str_eq_refl : (a : Bytes) → str_eq a a ≡ true
unfolding str_eq
str_eq_refl [] = refl
str_eq_refl (b ∷ bs) = rw (==_refl b) (str_eq_refl bs)

pub c_string-no_nul : (text : Bytes) → has_nul text ≡ false → c_string text ≡ text
unfolding c_string has_nul
c_string-no_nul [] h = refl
c_string-no_nul (b ∷ bs) h = ground (arith, c_string-no_nul bs)

pub has_nul-take : (n : ℕ) (text : Bytes) → has_nul text ≡ false → has_nul (take n text) ≡ false
unfolding has_nul
has_nul-take zero text h = refl
has_nul-take (suc n) [] h = refl
has_nul-take (suc n) (b ∷ bs) h = ground (arith, has_nul-take n bs)

pub has_nul-drop : (n : ℕ) (text : Bytes) → has_nul text ≡ false → has_nul (drop n text) ≡ false
unfolding has_nul
has_nul-drop zero text h = h
has_nul-drop (suc n) [] h = refl
has_nul-drop (suc n) (b ∷ bs) h = ground (arith, has_nul-drop n bs)
