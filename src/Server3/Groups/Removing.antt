-- ===== src/Server3/Groups/Removing.antt =====
-- `removeBuddy` and `removeUser` of 3.0/server.
use as3chat.Common.{◌≡◌, refl, ap, true, false, some, List, [], ◌∷◌, arith}
use as3chat.Common.Tests.{if◌then◌else◌}
use as3chat.Common.Text.{Bytes, str_eq}
use as3chat.Server3.Dict.{Dict, lookup, values, str_eq_iff, string_key}
use as3chat.Server3.Groups.{Groups, has_name, add_buddy, erase_member, remove_buddy, get_buddies}
use as3chat.Server3.Groups.Adding.{contains}

-- A list without the first occurrence of a name.
abbrev pub without : Bytes → List Bytes → List Bytes
without name [] = []
without name (x ∷ xs) = if str_eq x name then xs else x ∷ without name xs

erase_member-values :
    (j group name : Bytes) (d : Dict Bytes Bytes)
    → values j (erase_member group name d).0
      ≡ (if str_eq j group then without name (values j d) else values j d)
unfolding values erase_member
erase_member-values j group name [] = ground arith
erase_member-values j group name ((i, v) ∷ d) = ground (
  arith,
  erase_member-values j group name d,
  str_eq_iff j i,
  str_eq_iff j group,
  str_eq_iff group i,
)

erase_member-found :
    (group name : Bytes) (d : Dict Bytes Bytes)
    → (erase_member group name d).1 ≡ contains name (values group d)
unfolding values erase_member
erase_member-found group name [] = refl
erase_member-found group name ((i, v) ∷ d) =
    ground (arith, erase_member-found group name d, str_eq_iff v name, str_eq_iff name v)

has_name-there :
    {group : Bytes} (buddy : Bytes) (g : Groups)
    → lookup buddy g.group_of ≡ some group
    → has_name buddy g ≡ true
unfolding has_name
has_name-there buddy g there = ground arith

module _ (group buddy : Bytes) (g : Groups) (there : lookup buddy g.group_of ≡ some group) where
  -- The list of buddies without the entry under the group.
  abbrev pub removed : Groups
  removed = record g { members = (erase_member group buddy g.members).0 }

  remove_buddy-removed : remove_buddy buddy g ≡ (removed, contains buddy (get_buddies group g))
  unfolding remove_buddy get_buddies
  remove_buddy-removed =
      rw (there, remove_buddy)
        (ap (λ found. (removed, found)) (erase_member-found group buddy g.members))

  add_buddy-removed : (other : Bytes) → add_buddy other buddy removed ≡ (removed, false)
  unfolding add_buddy
  add_buddy-removed other = rw (has_name-there buddy removed there)

  get_buddies-removed :
      (j : Bytes)
      → get_buddies j removed
        ≡ (if str_eq j group then without buddy (get_buddies j g) else get_buddies j g)
  unfolding get_buddies
  get_buddies-removed j = erase_member-values j group buddy g.members

-- A buddy that is removed goes out of the list of its group and stays in no other, but it can never be
-- added again, to any group: the map of the buddies still has_name it. The result says whether the group
-- listed it. Condition: the map of the buddies gives it that group.
pub remove_buddy-sticks :
    (group buddy : Bytes) (g : Groups)
    → lookup buddy g.group_of ≡ some group
    → (g' : Groups) × (remove_buddy buddy g ≡ (g', contains buddy (get_buddies group g)))
      × ((j : Bytes)
          → get_buddies j g'
            ≡ (if str_eq j group then without buddy (get_buddies j g) else get_buddies j g))
      × ((other : Bytes) → add_buddy other buddy g' ≡ (g', false))
remove_buddy-sticks group buddy g there = (
  removed group buddy g there,
  remove_buddy-removed group buddy g there,
  get_buddies-removed group buddy g there,
  add_buddy-removed group buddy g there,
)
