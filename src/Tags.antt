-- ===== src/Tags.antt =====
-- `get_attribute` and `get_tag` of 1.0/server/function.c: the older way to read a request. A text holds no
-- NUL.
pub mod Extraction
use Prim.Native.String.{String}
use as3chat.Common.{
  ℕ, zero, suc, ◌-◌, Bool, true, false, ◌&&◌, ◌||◌, Option, none, some, List, [], ◌∷◌, ◌++◌,
}
use as3chat.Common.Tests.{ltb, ◌==◌, if◌then◌else◌}
use as3chat.Common.Lists.{length, take}
use as3chat.Common.Text.{Bytes, lit, snprintf}

-- What a call does with its buffer: `undefined` is undefined behaviour of the C program.
pub data Extract : Type 0 where
  failure : Extract
  -- RETURN_SUCCESS, with the buffer as it was
  untouched : Extract
  stored : Bytes → Extract
  undefined : Extract

unfoldable pub starts_with : Bytes → Bytes → Bool
starts_with [] text = true
starts_with (b ∷ bs) [] = false
starts_with (b ∷ bs) (t ∷ ts) = (b == t) && starts_with bs ts

-- `strstr`: the text from the first place on where the needle stands.
unfoldable pub strstr : Bytes → Bytes → Option Bytes
strstr [] needle = if starts_with needle [] then some [] else none
strstr (t ∷ ts) needle = if starts_with needle (t ∷ ts) then some (t ∷ ts) else strstr ts needle

unfoldable pub is_quote : ℕ → Bool
is_quote b = (b == 0x27) || (b == 0x22)

-- `numchars` at the end of the loop, from the character behind the first quote on.
pub count_chars : Bytes → ℕ
count_chars [] = 0
count_chars (b ∷ bs) = if is_quote b then 1 else suc (count_chars bs)

-- `start`, behind the first quote; `none` is NULL.
pub find_start : Bytes → Option Bytes
find_start [] = none
find_start (b ∷ bs) = if is_quote b then some bs else find_start bs

-- `strncpy` with the NUL over the last character, which stands before the buffer where `numchars` is 0.
pub store_attribute : Bytes → ℕ → ℕ → Extract
store_attribute start zero len = undefined
store_attribute start (suc n) len = if ltb len (suc n) then failure else stored (take n start)

pub get_attribute : Bytes → Bytes → ℕ → Extract
get_attribute xml attribute len = elim (strstr xml attribute) [
  | none ↦ failure
  | some as' ↦ elim (find_start as') [
    | none ↦ undefined
    | some start ↦ store_attribute start (count_chars start) len
  ]
]

-- The characters before the next `<`; a text without one is read beyond its end.
pub until_open : Bytes → Option Bytes
until_open [] = none
until_open (b ∷ bs) =
    if b == b'<' then some [] else elim (until_open bs) [ none ↦ none | some cs ↦ some (b ∷ cs) ]

-- The text behind the tag; without a `>` the pointer is 1.
pub behind_tag : Bytes → Option Bytes
behind_tag [] = none
behind_tag (b ∷ bs) = if b == b'>' then some bs else behind_tag bs

pub store_tag : Option Bytes → ℕ → Extract
store_tag none len = undefined
store_tag (some text) len = if ltb len (length text) then failure else stored text

pub get_tag : Bytes → Bytes → ℕ → Extract
get_tag xml tag len = elim (strstr xml (snprintf 32 (lit "<" ++ tag ++ lit "/>"))) [
  | some _ ↦ untouched
  | none ↦ elim (strstr xml (snprintf 32 (lit "<" ++ tag))) [
    | none ↦ failure
    | some as' ↦ elim (behind_tag as') [
      | none ↦ undefined
      | some ap ↦ store_tag (until_open ap) len
    ]
  ]
]
