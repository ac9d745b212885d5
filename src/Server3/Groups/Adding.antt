-- ===== src/Server3/Groups/Adding.antt =====
-- `addBuddy` and `addUser` of 3.0/server: the names of a group after a run of them.
use as3chat.Common.{
  ◌≡◌, refl, sym, ap, ◌∙◌, inl, inr, Bool, false, ◌||◌, none, List, [], ◌∷◌, ◌++◌, append_assoc,
  append-nil, arith,
}
use as3chat.Common.Tests.{if◌then◌else◌, Bool-cases}
use as3chat.Common.Text.{Bytes, str_eq}
use as3chat.Server3.Dict.{lookup, values, string_key}
use as3chat.Server3.Dict.Laws.{IsSorted, lookup-insert, values-insert, insert-IsSorted}
use as3chat.Server3.Groups.{
  Groups, empty, has_name, enlist, add_buddy, add_user, get_buddies, get_users,
}

abbrev pub contains : Bytes → List Bytes → Bool
contains a [] = false
contains a (x ∷ xs) = str_eq a x || contains a xs

-- The names whose first request is for this group, in the order of the requests; those in `seen` have
-- asked before.
abbrev pub first_for : Bytes → List Bytes → List (Bytes × Bytes) → List Bytes
first_for group seen [] = []
first_for group seen ((g, name) ∷ rest) =
    if contains name seen
    then first_for group seen rest
    else if str_eq group g
    then name ∷ first_for group (name ∷ seen) rest
    else first_for group (name ∷ seen) rest

abbrev pub add_all : List (Bytes × Bytes) → Groups → Groups
add_all [] g = g
add_all ((group, name) ∷ rest) g = add_all rest (add_user group name g)

-- The members are in order, and exactly the names in `seen` have a group.
pub record Knows (g : Groups) (seen : List Bytes) : Type 0 where
  pub sorted : IsSorted g.members
  pub known : (name : Bytes) → has_name name g ≡ contains name seen

fresh : (name : Bytes) (g : Groups) → has_name name g ≡ false → lookup name g.group_of ≡ none
unfolding has_name
fresh name g h = ground arith

enlist-Knows :
    (group name : Bytes) (g : Groups) (seen : List Bytes)
    → has_name name g ≡ false
    → Knows g seen
    → Knows (enlist group name g) (name ∷ seen)
unfolding enlist has_name
enlist-Knows group name g seen new k = record {
  sorted = insert-IsSorted group name g.members k.sorted;
  known = λ other.
      ground (arith, lookup-insert other name group g.group_of (fresh name g new), k.known other);
}

get_users-enlist :
    (j group name : Bytes) (g : Groups)
    → IsSorted g.members
    → get_users j (enlist group name g)
      ≡ (if str_eq j group then get_users j g ++ name ∷ [] else get_users j g)
unfolding get_users enlist
get_users-enlist j group name g sorted = values-insert j group name g.members sorted

add_all-first :
    (group : Bytes) (adds : List (Bytes × Bytes)) (g : Groups) (seen : List Bytes)
    → Knows g seen
    → get_users group (add_all adds g) ≡ get_users group g ++ first_for group seen adds
unfolding add_user
add_all-first group [] g seen k = sym (append-nil (get_users group g))
add_all-first group ((r, name) ∷ adds) g seen k = elim (Bool-cases (has_name name g)) [
  | inl old ↦ rw (old, sym (k.known name) ∙ old) (add_all-first group adds g seen k)
  | inr new ↦
      let later =
        add_all-first group adds (enlist r name g) (name ∷ seen)
          (enlist-Knows r name g seen new k) in
      rw (new, sym (k.known name) ∙ new)
        (later
          ∙ (rw (get_users-enlist group r name g k.sorted) (elim (Bool-cases (str_eq group r)) [
            | inl hit ↦ rw hit (append_assoc (get_users group g) (name ∷ []) _)
            | inr miss ↦ rw miss
          ])))
]

abbrev pub befriend_all : List (Bytes × Bytes) → Groups → Groups
befriend_all [] g = g
befriend_all ((group, name) ∷ rest) g = befriend_all rest (add_buddy group name g).0

add_buddy-add_user :
    (group name : Bytes) (g : Groups) → (add_buddy group name g).0 ≡ add_user group name g
unfolding add_buddy add_user
add_buddy-add_user group name g = elim (Bool-cases (has_name name g)) [
  | inl old ↦ rw old
  | inr new ↦ rw new
]

befriend_all-add_all :
    (adds : List (Bytes × Bytes)) (g : Groups) → befriend_all adds g ≡ add_all adds g
befriend_all-add_all [] g = refl
befriend_all-add_all ((group, name) ∷ rest) g =
    ap (befriend_all rest) (add_buddy-add_user group name g)
    ∙ befriend_all-add_all rest (add_user group name g)

get_buddies-get_users : (group : Bytes) (g : Groups) → get_buddies group g ≡ get_users group g
unfolding get_buddies get_users
get_buddies-get_users group g = refl

empty-Knows : Knows empty []
unfolding has_name lookup
empty-Knows = record { sorted = tt; known = λ name. refl }

-- After any run of additions to an empty list, a group holds the names whose first addition was to it,
-- each once and in the order of those additions: a name that is in a group already is added to no
-- other. It is so for the users of the rooms and for the buddies of a client.
pub add_all-first_for :
    (group : Bytes) (adds : List (Bytes × Bytes))
    → (get_users group (add_all adds empty) ≡ first_for group [] adds)
      × (get_buddies group (befriend_all adds empty) ≡ first_for group [] adds)
unfolding get_users values
add_all-first_for group adds =
    let users = add_all-first group adds empty [] empty-Knows in
    (
      users,
      ap (get_buddies group) (befriend_all-add_all adds empty)
          ∙ get_buddies-get_users group (add_all adds empty)
          ∙ users,
    )
