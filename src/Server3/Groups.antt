-- ===== src/Server3/Groups.antt =====
-- The two maps that 3.0/server keeps of names in groups: BuddyList.cpp for the buddies of a client, and
-- RoomUserList.cpp for the users of the rooms.
pub mod Adding
pub mod Removing
use as3chat.Common.{Bool, true, false, not, ◌&&◌, Option, none, some, List, [], ◌∷◌}
use as3chat.Common.Tests.{if◌then◌else◌}
use as3chat.Common.Text.{Bytes, str_eq}
use as3chat.Server3.Dict.{Dict, lookup, insert, erase, values, all_values, string_key}

-- `mBuddyGroup` or `mUserRoom`, and `mGroupBuddy` or `mRoomUser`.
pub record Groups : Type 0 where
  pub group_of : Dict Bytes Bytes
  pub members : Dict Bytes Bytes

abbrev pub empty : Groups
empty = record { group_of = []; members = [] }

-- `count(name) != 0`.
pub has_name : Bytes → Groups → Bool
has_name name g = elim (lookup name g.group_of) [ none ↦ false | some _ ↦ true ]

-- What the two insertions do where the name is not there.
enlist : Bytes → Bytes → Groups → Groups
enlist group name g = record {
  group_of = insert name group g.group_of;
  members = insert group name g.members;
}

pub add_buddy : Bytes → Bytes → Groups → Groups × Bool
add_buddy group buddy g = if has_name buddy g then (g, false) else (enlist group buddy g, true)

pub add_user : Bytes → Bytes → Groups → Groups
add_user room user g = if has_name user g then g else enlist room user g

-- The walk from `lower_bound` to `upper_bound`, which erases the first entry of this name; whether it did.
pub erase_member : Bytes → Bytes → Dict Bytes Bytes → Dict Bytes Bytes × Bool
erase_member group name [] = ([], false)
erase_member group name ((j, v) ∷ d) =
    if str_eq group j && str_eq v name
    then (d, true)
    else (let (rest, found) = erase_member group name d in ((j, v) ∷ rest, found))

-- `mBuddyGroup` stays as it is.
pub remove_buddy : Bytes → Groups → Groups × Bool
remove_buddy buddy g = elim (lookup buddy g.group_of) [
  | none ↦ (g, false)
  | some group ↦
      let (members, found) = erase_member group buddy g.members in
      (record g { members = members }, found)
]

-- The entry is read again after it has been erased, so there is no result where the user is in a room.
pub remove_user : Bytes → Groups → Option Groups
remove_user user g = elim (lookup user g.group_of) [ none ↦ some g | some _ ↦ none ]

pub is_buddy : Bytes → Groups → Bool
is_buddy buddy g = not (has_name buddy g)

pub in_room : Bytes → Groups → Bool
in_room user g = not (has_name user g)

-- The overloads without a group list the groups, not the names.
pub get_all_buddies : Groups → List Bytes
get_all_buddies g = all_values g.group_of

pub get_all_users : Groups → List Bytes
get_all_users g = all_values g.group_of

pub get_buddies : Bytes → Groups → List Bytes
get_buddies group g = values group g.members

pub get_users : Bytes → Groups → List Bytes
get_users room g = values room g.members
