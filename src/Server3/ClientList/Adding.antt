-- ===== src/Server3/ClientList/Adding.antt =====
-- What ClientList::addClient promises: every listed client is alive and has the name and the descriptor
-- that it is listed by.
use as3chat.Common.{
  ℕ, ◌≡◌, refl, sym, ap, subst, ◌∙◌, ◌⊎◌, inl, inr, true, false, ◌&&◌, not, none, some, [], ◌∷◌,
  arith,
}
use as3chat.Common.Tests.{◌==◌, if◌then◌else◌, Bool-cases}
use as3chat.Common.Int.{ℤ, ◌==ℤ◌}
use as3chat.Common.Text.{Bytes, str_eq}
use as3chat.Server3.Dict.{Dict, Key, lookup, insert, string_key, int_key}
use as3chat.Server3.Dict.Laws.{NodupKeys, lookup-insert, NodupKeys-insert}
use as3chat.Server3.Client.{Client}
use as3chat.Server3.Process.{Process, done, deadlock, load}
use as3chat.Server3.ClientList.{
  add_name, add_sock, add_client, remove_client, find_client, find_client_fd,
}

abbrev pub Live : Process → ℕ → Client → Type 0
Live s p c = ((p == 0) ≡ false) × (s.heap p ≡ some c)

-- Every entry leads to a live client with that key.
abbrev pub Owned {ℓ} : {K : Type ℓ} ⦃e : Key K⦄ → (Client → K) → Process → Dict K ℕ → Type ℓ
Owned {K} key s d = (k : K) (p : ℕ) → lookup k d ≡ some p → (c : Client) × Live s p c × (key c ≡ k)

pub record Valid (s : Process) : Type 0 where
  pub names : Owned (λ c. c.name) s s.name_clients
  pub socks : Owned (λ c. c.sock) s s.clients
  pub names_once : NodupKeys s.name_clients
  pub socks_once : NodupKeys s.clients
  pub free : s.locked ≡ false

pub load-Live : (s : Process) (p : ℕ) (c : Client) → Live s p c → load p s ≡ done c s
load-Live s p c (here, live) = rw (here, live)

-- The names with `p` under its own, unless that is empty.
abbrev pub entered : Bytes → ℕ → Dict Bytes ℕ → Dict Bytes ℕ
entered [] p d = d
entered (b ∷ name) p d = insert (b ∷ name) p d

abbrev pub listed : Client → ℕ → Process → Process
listed c p s = record s {
  name_clients = entered c.name p s.name_clients;
  clients = insert c.sock p s.clients;
}

abbrev pub FreeName : Bytes → Dict Bytes ℕ → Type 0
FreeName name d = (name ≡ []) ⊎ (lookup name d ≡ none)

add_name-free :
    (name : Bytes) (p : ℕ) (s : Process)
    → FreeName name s.name_clients
    → add_name name p s ≡ done true (record s { name_clients = entered name p s.name_clients })
unfolding add_name
add_name-free [] p s h = refl
add_name-free (b ∷ name) p s (inl e) = absurd cc
add_name-free (b ∷ name) p s (inr e) = rw (add_name, e)

add_sock-free :
    (c : Client) (p : ℕ) (s : Process)
    → lookup c.sock s.clients ≡ none
    → add_sock c p s ≡ done true (record s { clients = insert c.sock p s.clients })
unfolding add_sock
add_sock-free c p s e = rw (add_sock, e)

add_client-listed :
    (s : Process) (p : ℕ) (c : Client)
    → s.locked ≡ false
    → Live s p c
    → FreeName c.name s.name_clients
    → lookup c.sock s.clients ≡ none
    → add_client p s ≡ done true (record (listed c p s) { locked = false })
unfolding add_client
add_client-listed s p c free (here, live) name sock =
    let held : Process = record s { locked = true } in
    let named : Process = record held { name_clients = entered c.name p s.name_clients } in
    rw (free, here, live, add_name-free c.name p held name, add_sock-free c p named sock)

-- removeClient waits for the mutex that addClient holds.
pub add_client-deadlock :
    (s : Process) (p q : ℕ) (c : Client)
    → s.locked ≡ false
    → Live s p c
    → c.name ≡ []
    → lookup c.sock s.clients ≡ some q
    → add_client p s ≡ deadlock
unfolding add_client add_name add_sock remove_client
add_client-deadlock s p q c free (here, live) unnamed listed =
    rw (free, here, live, unnamed, add_sock, listed)

module _ {ℓ} {K : Type ℓ} ⦃e : Key K⦄ where
  Owned-insert :
      (key : Client → K) (s : Process) (d : Dict K ℕ) (k : K) (p : ℕ) (c : Client)
      → lookup k d ≡ none
      → Live s p c
      → key c ≡ k
      → Owned key s d
      → Owned key s (insert k p d)
  Owned-insert key s d k p c new live named owned j q h =
      let found = sym (lookup-insert j k p d new) ∙ h in
      elim (Bool-cases (e.same j k)) [
        | inl same ↦
            let (to, _) = e.same_iff j k in
            let there : p ≡ q = ground (arith, found, same) in
            (c, subst (λ r. Live s r c) there live, named ∙ sym (to same))
        | inr other ↦ owned j q (ground (arith, found, other))
      ]

Owned-entered :
    (s : Process) (p : ℕ) (c : Client)
    → FreeName c.name s.name_clients
    → Live s p c
    → (name : Bytes) → c.name ≡ name
    → Owned (λ c. c.name) s s.name_clients
    → Owned (λ c. c.name) s (entered name p s.name_clients)
Owned-entered s p c free live [] named owned = owned
Owned-entered s p c (inl none_given) live (b ∷ name) named owned = absurd cc
Owned-entered s p c (inr new) live (b ∷ name) named owned =
    Owned-insert (λ c. c.name) s s.name_clients (b ∷ name) p c
      (sym (ap (λ n. lookup n s.name_clients) named) ∙ new) live named owned

entered-NodupKeys :
    (name : Bytes) (p : ℕ) (d : Dict Bytes ℕ)
    → FreeName name d
    → NodupKeys d
    → NodupKeys (entered name p d)
entered-NodupKeys [] p d free once = once
entered-NodupKeys (b ∷ name) p d (inl e) once = absurd cc
entered-NodupKeys (b ∷ name) p d (inr e) once = NodupKeys-insert (b ∷ name) p d e once

listed-Valid :
    (s : Process) (p : ℕ) (c : Client)
    → Valid s
    → Live s p c
    → FreeName c.name s.name_clients
    → lookup c.sock s.clients ≡ none
    → Valid (record (listed c p s) { locked = false })
listed-Valid s p c v live name sock = record {
  names = Owned-entered s p c name live c.name refl v.names;
  socks = Owned-insert (λ c. c.sock) s s.clients c.sock p c sock live refl v.socks;
  names_once = entered-NodupKeys c.name p s.name_clients name v.names_once;
  socks_once = NodupKeys-insert c.sock p s.clients sock v.socks_once;
  free = refl;
}

find-entered :
    (other name : Bytes) (p : ℕ) (d : Dict Bytes ℕ)
    → FreeName name d
    → lookup other (entered name p d)
      ≡ (if str_eq other name && not (str_eq name []) then some p else lookup other d)
unfolding str_eq
find-entered other [] p d free = ground arith
find-entered other (b ∷ name) p d (inl e) = absurd cc
find-entered other (b ∷ name) p d (inr e) = lookup-insert other (b ∷ name) p d e ∙ ground arith

-- addClient enters a client in the list: from then on it is found under its descriptor, and under its
-- name if it has one, and everybody else as before, and every entry still leads to a live client that has
-- the name or the descriptor of the entry, each once. Conditions: this held before, the client is alive,
-- its descriptor is not listed, nor its name unless that is empty.
pub add_client-Valid :
    (s : Process) (p : ℕ) (c : Client)
    → Valid s
    → Live s p c
    → FreeName c.name s.name_clients
    → find_client_fd c.sock s ≡ none
    → (t : Process) × (add_client p s ≡ done true t)
      × Valid t
      × ((fd : ℤ) → find_client_fd fd t ≡ (if fd ==ℤ c.sock then some p else find_client_fd fd s))
      × ((name : Bytes)
          → find_client name t
            ≡ (if str_eq name c.name && not (str_eq c.name []) then some p else find_client name s))
unfolding find_client find_client_fd
add_client-Valid s p c v live name sock = (
  record (listed c p s) { locked = false },
  add_client-listed s p c v.free live name sock,
  listed-Valid s p c v live name sock,
  λ fd. lookup-insert fd c.sock p s.clients sock,
  λ other. find-entered other c.name p s.name_clients name,
)
