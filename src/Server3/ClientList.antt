-- ===== src/Server3/ClientList.antt =====
-- ClientList.cpp of 3.0/server: the clients by their name and by their descriptor, under one mutex.
pub mod Adding
pub mod Removing
pub mod Expiry
pub mod Keeping
use as3chat.Common.{ℕ, Bool, true, false, not, Option, none, some, List, [], ◌∷◌}
use as3chat.Common.Tests.{if◌then◌else◌}
use as3chat.Common.Int.{ℤ, pos, ◌-ℤ◌, ◌<ℤ◌}
use as3chat.Common.Text.{Bytes}
use as3chat.Server3.Dict.{Dict, lookup, insert, erase, string_key, int_key}
use as3chat.Server3.Client.{Client}
use as3chat.Server3.Process.{
  Process, Outcome, Act, done, crash, ◌>>=◌, ◌>>◌, and_then, skip, guarded, load, delete_client,
}

abbrev pub unlisted : Client → Process → Process
unlisted c s = record s {
  name_clients = erase c.name s.name_clients;
  clients = erase c.sock s.clients;
}

pub remove_client : ℕ → Act (Unit {0})
remove_client p = guarded do c ← load p; λ s. delete_client p (unlisted c s)

-- Whether the name was free; a client without a name is not entered, and is fine.
unfoldable pub add_name : Bytes → ℕ → Act Bool
add_name [] p s = done true s
add_name (b ∷ name) p s = elim (lookup (b ∷ name) s.name_clients) [
  | none ↦ done true (record s { name_clients = insert (b ∷ name) p s.name_clients })
  | some _ ↦ done false s
]

unfoldable pub add_sock : Client → ℕ → Act Bool
add_sock c p s = elim (lookup c.sock s.clients) [
  | none ↦ done true (record s { clients = insert c.sock p s.clients })
  | some _ ↦ and_then (remove_client p s) (λ _. done false)
]

unfoldable pub add_client : ℕ → Act Bool
add_client p =
    guarded do c ← load p; is_new ← add_name c.name p; if is_new then add_sock c p else done false

pub find_client : Bytes → Process → Option ℕ
find_client name s = lookup name s.name_clients

unfoldable pub find_client_fd : ℤ → Process → Option ℕ
find_client_fd fd s = lookup fd s.clients

-- `ClientList::empty`: whether no client has a name.
pub empty : Process → Bool
empty s = elim s.name_clients [ [] ↦ true | _ ∷ _ ↦ false ]

-- `lastresponsetime - now >= 60`.
abbrev pub is_expired : ℤ → Client → Bool
is_expired now c = not ((c.lastresponsetime -ℤ now) <ℤ pos 60)

-- The entries that the loop leaves; the clients are not deleted. The mutex is not taken.
unfoldable pub keep_alive_loop : ℤ → Dict ℤ ℕ → Act (Dict ℤ ℕ)
keep_alive_loop now [] s = done [] s
keep_alive_loop now ((fd, p) ∷ d) s =
    let rest = keep_alive_loop now d in
    and_then (load p s)
      (λ c. rest >>= λ left. done (if is_expired now c then left else (fd, p) ∷ left))

pub keep_alive : ℤ → Act (Unit {0})
keep_alive now s =
    and_then (keep_alive_loop now s.clients s) (λ left t. done tt (record t { clients = left }))
