-- ===== src/Tests/Database.antt =====
-- The theorem on the columns of a table that has one name twice.
use as3chat.Common.{◌≡◌, [], ◌∷◌}
use as3chat.Common.Text.{lit, str_eq}
use as3chat.Database.{column}
use as3chat.Database.Columns.{column-first}

column-first_example : column (lit "salt") (lit "id" ∷ lit "salt" ∷ lit "salt" ∷ []) ≡ 1
unfolding lit str_eq
column-first_example = column-first (lit "salt") (lit "id" ∷ lit "salt" ∷ lit "salt" ∷ [])
