-- ===== src/Database/Columns.antt =====
-- The columns and the state that `get_password` of 1.0/server/db_mysql.c reads.
use as3chat.Common.{
  ℕ, ◌+◌, some, zero, suc, ◌<◌, ◌≤◌, ◌∙◌, ap, arith, [], ◌++◌, ◌≡◌, refl, inl, inr, ◌&&◌, Option,
  none, List, [], ◌∷◌,
}
use as3chat.Common.Tests.{if◌then◌else◌, Bool-cases, Option-cases}
use as3chat.Common.Text.{str_eq, Bytes, c_string}
use as3chat.Common.Lists.{length, take, length-take}
use as3chat.Server.{State, Run, ok, fault, out_of_fuel}
use as3chat.External.{MySql}
use as3chat.LuaFunctions.{Config}
use as3chat.Database.{
  get_user_tuple, get_or, column_loop, column, fits, read_fields, read_row, get_password,
}

-- A run that ends leaves the state as it was.
abbrev pub Unchanged : {A : Type 0} → State → Run A → Type 0
Unchanged s (ok a t) = t ≡ s
Unchanged s fault = Unit
Unchanged s out_of_fuel = Unit

read_fields-Unchanged :
    (config : Config) (fields : List Bytes) (row : List (Option Bytes)) (s : State)
    → Unchanged s (read_fields config fields row s)
unfolding read_fields
read_fields-Unchanged config fields row s =
    elim (Option-cases (get_or row (column (c_string config.fieldpassword) fields) none)) [
      | inl null ↦ rw (null, Unchanged, read_fields) refl
      | inr (password, ep) ↦
          elim (Option-cases (get_or row (column (c_string config.fieldsalt) fields) none)) [
            | inl null ↦ rw (ep, null, Unchanged, read_fields) tt
            | inr (salt, es) ↦ elim (Bool-cases (fits password && fits salt)) [
              | inl short ↦ rw (ep, es, short, Unchanged, read_fields) refl
              | inr long ↦ rw (ep, es, long, Unchanged, read_fields) tt
            ]
          ]
    ]

read_row-Unchanged :
    (config : Config) (fields : List Bytes) (rows : List (List (Option Bytes))) (s : State)
    → Unchanged s (read_row config fields rows s)
unfolding read_row
read_row-Unchanged config fields [] s = refl
read_row-Unchanged config fields (row ∷ rest) s = read_fields-Unchanged config fields row s

pub get_password-Unchanged :
    (mysql : MySql) (config : Config) (username : Bytes) (s : State)
    → Unchanged s (get_password mysql config username s)
unfolding get_password
get_password-Unchanged mysql config username s =
    elim (Option-cases (get_user_tuple mysql config username)) [
      | inl nobody ↦ rw (nobody, Unchanged, get_password) refl
      | inr (res, found) ↦
          rw (found, Unchanged, get_password) (read_row-Unchanged config res.fields res.rows s)
    ]

-- The index of the first field of this name, where the first one counts as `i`.
abbrev pub index_from : ℕ → Bytes → List Bytes → Option ℕ
index_from i name [] = none
index_from i name (field ∷ fields) =
    if str_eq field name then some i else index_from (suc i) name fields

abbrev pub or_else : Option ℕ → ℕ → ℕ
or_else none d = d
or_else (some i) d = i

index_from-snoc :
    (i : ℕ) (name : Bytes) (fields : List Bytes) (field : Bytes) (d : ℕ)
    → or_else (index_from i name (fields ++ field ∷ [])) d
      ≡ or_else (index_from i name fields) (if str_eq field name then i + length fields else d)
index_from-snoc i name [] field d = elim (Bool-cases (str_eq field name)) [
  | inl hit ↦ rw hit (omega arith)
  | inr miss ↦ rw miss
]
index_from-snoc i name (f ∷ fields) field d = elim (Bool-cases (str_eq f name)) [
  | inl hit ↦ rw hit
  | inr miss ↦ rw miss (
      index_from-snoc (suc i) name fields field d
      ∙ ap (λ n. or_else (index_from (suc i) name fields) (if str_eq field name then n else d))
          (omega arith))
]

take-snoc :
    (fields : List Bytes) (i : ℕ)
    → i < length fields
    → take (suc i) fields ≡ take i fields ++ get_or fields i [] ∷ []
unfolding get_or
take-snoc [] i h = absurd (omega arith)
take-snoc (f ∷ fields) zero h = refl
take-snoc (f ∷ fields) (suc i) h = ap (λ t. f ∷ t) (take-snoc fields i (omega arith))

take-all : (fields : List Bytes) → take (length fields) fields ≡ fields
take-all [] = refl
take-all (f ∷ fields) = ap (λ t. f ∷ t) (take-all fields)

column_loop-index :
    (name : Bytes) (fields : List Bytes) (i d : ℕ)
    → i ≤ length fields
    → column_loop name fields i d ≡ or_else (index_from 0 name (take i fields)) d
unfolding column_loop
column_loop-index name fields zero d h = refl
column_loop-index name fields (suc i) d h =
    column_loop-index name fields i (if str_eq (get_or fields i []) name then i else d)
      (omega arith)
    ∙ rw
        (
          take-snoc fields i (omega arith),
          index_from-snoc 0 name (take i fields) (get_or fields i []) d,
          length-take i fields (omega arith),
        )
        (ap
          (λ n.
            or_else (index_from 0 name (take i fields))
              (if str_eq (get_or fields i []) name then n else d))
          (omega arith))

-- The column that the program reads is the first one of that name, although it goes through the
-- columns from the last to the first; where none has the name, it is the first column of the table.
pub column-first :
    (name : Bytes) (fields : List Bytes) → column name fields ≡ or_else (index_from 0 name fields) 0
unfolding column
column-first name fields =
    column_loop-index name fields (length fields) 0 (omega arith) ∙ rw (take-all fields)
