-- ===== src/Server3/ClientList/Removing.antt =====
-- What ClientList::removeClient leaves, and ClientList::keepAlive.
use as3chat.Common.{
  ℕ, ◌≡◌, ◌≢◌, refl, sym, ap, ◌∙◌, inl, inr, true, false, none, some, [], ◌∷◌, ◌++◌, arith,
}
use as3chat.Common.Tests.{◌==◌, ==_iff, ==_refl, if◌then◌else◌, Bool-cases}
use as3chat.Common.Int.{ℤ, minus_one, ◌==ℤ◌}
use as3chat.Common.Text.{Bytes, str_eq}
use as3chat.Server3.Dict.{Dict, Key, lookup, erase, string_key, int_key}
use as3chat.Server3.Dict.Laws.{NodupKeys, lookup-erase, NodupKeys-erase}
use as3chat.Server3.Client.{Client}
use as3chat.Server3.Process.{Process, close, done, freed, call, delete_client}
use as3chat.Server3.ClientList.{unlisted, remove_client, find_client, find_client_fd}
use as3chat.Server3.ClientList.Adding.{Live, Owned, Valid}

-- `delete` of a client whose descriptor is open.
abbrev pub deleted : ℕ → Client → Process → Process
deleted p c s = call (close c.sock) (freed p s)

pub delete_client-Live :
    (s : Process) (p : ℕ) (c : Client)
    → Live s p c
    → (c.sock ==ℤ minus_one) ≡ false
    → delete_client p s ≡ done tt (deleted p c s)
unfolding delete_client
delete_client-Live s p c (here, live) opened = rw (delete_client, here, live, opened)

pub remove_client-removed :
    (s : Process) (p : ℕ) (c : Client)
    → s.locked ≡ false
    → Live s p c
    → (c.sock ==ℤ minus_one) ≡ false
    → remove_client p s ≡ done tt (record (deleted p c (unlisted c s)) { locked = false })
unfolding remove_client
remove_client-removed s p c free (here, live) opened =
    let held : Process = record s { locked = true } in
    rw (free, here, live, delete_client-Live (unlisted c held) p c (here, live) opened)

none≢some {ℓ} : {A : Type ℓ} (a : A) → none ≢ some a
none≢some a e = cc

module _ {ℓ} {K : Type ℓ} ⦃e : Key K⦄ where
  pub Owned-erase :
      (key : Client → K) (s : Process) (d : Dict K ℕ) (p : ℕ) (c : Client)
      → NodupKeys d
      → Live s p c
      → Owned key s d
      → Owned key (freed p s) (erase (key c) d)
  Owned-erase key s d p c once (_, live) owned j q h = elim (Bool-cases (e.same j (key c))) [
    | inl same ↦
        let gone : lookup j (erase (key c) d) ≡ none =
          ground (arith, lookup-erase j (key c) d once) in
        absurd (none≢some q (sym gone ∙ h))
    | inr other ↦
        let kept : lookup j d ≡ some q = ground (arith, lookup-erase j (key c) d once) in
        let (c', (here, live'), named) = owned j q kept in
        elim (Bool-cases (q == p)) [
          | inl again ↦
              let (to, _) = ==_iff q p in
              let mine : some c' ≡ some c = sym live' ∙ ap s.heap (to again) ∙ live in
              let equal : c' ≡ c = cc in
              let (_, from) = e.same_iff j (key c) in
              let same : e.same j (key c) ≡ true = from (sym named ∙ ap key equal) in absurd cc
          | inr apart ↦ (c', (here, rw (apart, live')), named)
        ]
  ]

-- removeClient takes a client off the list, closes its descriptor and frees it: it is found under its name
-- and its descriptor no more, and everybody else as before; no other client is freed, and every entry still
-- leads to a live client that has the name or the descriptor of the entry. Conditions: this held before,
-- the client is alive, and its descriptor is not -1.
pub remove_client-Valid :
    (s : Process) (p : ℕ) (c : Client)
    → Valid s
    → Live s p c
    → (c.sock ==ℤ minus_one) ≡ false
    → (t : Process) × (remove_client p s ≡ done tt t)
      × Valid t
      × (t.heap p ≡ none)
      × ((q : ℕ) → t.heap q ≡ (if q == p then none else s.heap q))
      × (t.calls ≡ s.calls ++ close c.sock ∷ [])
      × ((fd : ℤ) → find_client_fd fd t ≡ (if fd ==ℤ c.sock then none else find_client_fd fd s))
      × ((name : Bytes)
          → find_client name t ≡ (if str_eq name c.name then none else find_client name s))
unfolding find_client find_client_fd
remove_client-Valid s p c v live opened = (
  record (deleted p c (unlisted c s)) { locked = false },
  remove_client-removed s p c v.free live opened,
  record {
    names = Owned-erase (λ c. c.name) s s.name_clients p c v.names_once live v.names;
    socks = Owned-erase (λ c. c.sock) s s.clients p c v.socks_once live v.socks;
    names_once = NodupKeys-erase c.name s.name_clients v.names_once;
    socks_once = NodupKeys-erase c.sock s.clients v.socks_once;
    free = refl;
  },
  rw (==_refl p),
  λ q. refl,
  refl,
  λ fd. lookup-erase fd c.sock s.clients v.socks_once,
  λ name. lookup-erase name c.name s.name_clients v.names_once,
)
