-- ===== src/Tags/Extraction.antt =====
-- What `get_attribute` and `get_tag` of 1.0/server/function.c take out of a text.
use as3chat.Common.{ℕ, suc, ◌≡◌, refl, ap, Bool, true, false, none, some, [], ◌∷◌, ◌++◌}
use as3chat.Common.Tests.{ltb, ◌==◌, if◌then◌else◌}
use as3chat.Common.Lists.{length, take}
use as3chat.Common.Text.{Bytes, lit, snprintf}
use as3chat.Tags.{
  failure, stored, undefined, strstr, is_quote, count_chars, find_start, store_attribute,
  get_attribute, until_open, behind_tag, store_tag, get_tag,
}

-- No byte of the text passes the test.
abbrev pub Free : (ℕ → Bool) → Bytes → Type 0
Free test [] = Unit
Free test (b ∷ bs) = (test b ≡ false) × Free test bs

take-prefix : (bs cs : Bytes) → take (length bs) (bs ++ cs) ≡ bs
take-prefix [] cs = refl
take-prefix (b ∷ bs) cs = ap (λ t. b ∷ t) (take-prefix bs cs)

find_start-quoted :
    (before : Bytes) (q : ℕ) (rest : Bytes)
    → Free is_quote before
    → is_quote q ≡ true
    → find_start (before ++ q ∷ rest) ≡ some rest
unfolding find_start
find_start-quoted [] q rest f h = rw h
find_start-quoted (b ∷ bs) q rest (o, f) h = rw o (find_start-quoted bs q rest f h)

find_start-bare : (text : Bytes) → Free is_quote text → find_start text ≡ none
unfolding find_start
find_start-bare [] f = refl
find_start-bare (b ∷ bs) (o, f) = rw o (find_start-bare bs f)

count_chars-value :
    (value : Bytes) (q : ℕ) (rest : Bytes)
    → Free is_quote value
    → is_quote q ≡ true
    → count_chars (value ++ q ∷ rest) ≡ suc (length value)
unfolding count_chars
count_chars-value [] q rest f h = rw h
count_chars-value (b ∷ bs) q rest (o, f) h = rw o (ap suc (count_chars-value bs q rest f h))

-- The value of an attribute comes out as it stands between its quotes, whatever follows, or the call
-- fails where the value and the NUL do not fit. Condition: where the attribute's name first occurs, no
-- quote stands before the one that opens the value.
pub get_attribute-value :
    (xml attribute before value rest : Bytes) (left right len : ℕ)
    → strstr xml attribute ≡ some (before ++ left ∷ (value ++ right ∷ rest))
    → Free is_quote before
    → is_quote left ≡ true
    → Free is_quote value
    → is_quote right ≡ true
    → get_attribute xml attribute len
      ≡ (if ltb len (suc (length value)) then failure else stored value)
unfolding get_attribute store_attribute
get_attribute-value xml attribute before value rest left right len at fb ho fv hc = rw (
  at,
  find_start-quoted before left (value ++ right ∷ rest) fb ho,
  count_chars-value value right rest fv hc,
  take-prefix value (right ∷ rest),
  get_attribute,
  store_attribute,
)

-- An attribute without any quote behind its name makes the program write before its buffer.
pub get_attribute-unquoted :
    (xml attribute text : Bytes) (len : ℕ)
    → strstr xml attribute ≡ some text
    → Free is_quote text
    → get_attribute xml attribute len ≡ undefined
unfolding get_attribute
get_attribute-unquoted xml attribute text len at f = rw (at, find_start-bare text f, get_attribute)

abbrev is_open : ℕ → Bool
is_open b = b == b'<'

abbrev is_close : ℕ → Bool
is_close b = b == b'>'

behind_tag-tag :
    (before rest : Bytes) → Free is_close before → behind_tag (before ++ b'>' ∷ rest) ≡ some rest
unfolding behind_tag
behind_tag-tag [] rest f = refl
behind_tag-tag (b ∷ bs) rest (o, f) = rw o (behind_tag-tag bs rest f)

until_open-text :
    (text rest : Bytes) → Free is_open text → until_open (text ++ b'<' ∷ rest) ≡ some text
unfolding until_open
until_open-text [] rest f = refl
until_open-text (b ∷ bs) rest (o, f) = rw (o, until_open-text bs rest f)

-- The text of a tag comes out as it stands between the `>` of the tag and the next `<`, or the call fails
-- where it is longer than the length given. Conditions: the text has the opening tag, with what
-- attributes there may be, and does not have the tag in its empty form.
pub get_tag-text :
    (xml tag before text rest : Bytes) (len : ℕ)
    → strstr xml (snprintf 32 (lit "<" ++ tag ++ lit "/>")) ≡ none
    → strstr xml (snprintf 32 (lit "<" ++ tag)) ≡ some (before ++ b'>' ∷ (text ++ b'<' ∷ rest))
    → Free is_close before
    → Free is_open text
    → get_tag xml tag len ≡ (if ltb len (length text) then failure else stored text)
unfolding get_tag store_tag
get_tag-text xml tag before text rest len full at fb ft = rw (
  full,
  at,
  behind_tag-tag before (text ++ b'<' ∷ rest) fb,
  until_open-text text rest ft,
  get_tag,
)
