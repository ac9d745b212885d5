-- ===== src/Server3/ClientList/Keeping.antt =====
-- Runs that keep the list of 3.0/server sound, put together as the code puts its calls together.
use as3chat.Common.{ℕ, ◌≡◌, refl, sym, ap, subst, ◌∙◌, inl, inr, Bool, true, false, some}
use as3chat.Common.Tests.{◌==◌, ==_iff, if◌then◌else◌, Bool-cases, Option-cases}
use as3chat.Common.Int.{minus_one, ◌==ℤ◌}
use as3chat.Server3.Dict.{Dict, Key, string_key, int_key}
use as3chat.Server3.Dict.Laws.{NodupKeys-erase}
use as3chat.Server3.Client.{Client}
use as3chat.Server3.Client.Names.{Same}
use as3chat.Server3.Process.{
  Process, Outcome, Act, Call, done, raised, crash, deadlock, and_then, or_catch, call, load,
  update, freed, delete_client,
}
use as3chat.Server3.ClientList.{unlisted, remove_client}
use as3chat.Server3.ClientList.Adding.{Live, Owned, Valid}
use as3chat.Server3.ClientList.Removing.{Owned-erase, remove_client-Valid}

-- The list is sound wherever the run goes on.
abbrev pub Sound : {A : Type 0} → Outcome A → Type 0
Sound (done _ t) = Valid t
Sound (raised t) = Valid t
Sound crash = Unit
Sound deadlock = Unit

module _ {A : Type 0} where
  pub and_then-Sound :
      {B : Type 0} (r : Outcome A) (k : A → Act B)
      → Sound r
      → ((a : A) (t : Process) → Valid t → Sound (k a t))
      → Sound (and_then r k)
  and_then-Sound (done a t) k v f = f a t v
  and_then-Sound (raised t) k v f = v
  and_then-Sound crash k v f = tt
  and_then-Sound deadlock k v f = tt

  pub or_catch-Sound :
      (r : Outcome A) (h : Act A)
      → Sound r
      → ((t : Process) → Valid t → Sound (h t))
      → Sound (or_catch r h)
  or_catch-Sound (done a t) h v f = v
  or_catch-Sound (raised t) h v f = f t v
  or_catch-Sound crash h v f = tt
  or_catch-Sound deadlock h v f = tt

  pub if-Sound :
      (b : Bool) (m n : Act A) (s : Process)
      → Sound (m s)
      → Sound (n s)
      → Sound ((if b then m else n) s)
  if-Sound true m n s u v = u
  if-Sound false m n s u v = v

  pub load-Sound :
      (p : ℕ) (k : Client → Act A) (s : Process)
      → ((c : Client) → Live s p c → Sound (k c s))
      → Sound (and_then (load p s) k)
  load-Sound p k s f = elim (Bool-cases (p == 0)) [
    | inl null ↦ rw null tt
    | inr here ↦ elim (Option-cases (s.heap p)) [
      | inl gone ↦ rw (here, gone) tt
      | inr (c, live) ↦ rw (here, live) (f c (here, live))
    ]
  ]

pub call-Valid : (c : Call) (s : Process) → Valid s → Valid (call c s)
call-Valid c s v = record {
  names = v.names;
  socks = v.socks;
  names_once = v.names_once;
  socks_once = v.socks_once;
  free = v.free;
}

abbrev pub stored_at : ℕ → Client → Process → Process
stored_at p c s = record s { heap = update s.heap p (some c) }

Owned-store {ℓ} :
    {K : Type ℓ} ⦃e : Key K⦄ (key : Client → K) (s : Process) (d : Dict K ℕ) (p : ℕ) (c c' : Client)
    → Live s p c
    → key c' ≡ key c
    → Owned key s d
    → Owned key (stored_at p c' s) d
Owned-store key s d p c c' (here, live) same owned k q h =
    let (x, (there, found), named) = owned k q h in
    elim (Bool-cases (q == p)) [
      | inl again ↦
          let (to, _) = ==_iff q p in
          let mine : some x ≡ some c = sym found ∙ ap s.heap (to again) ∙ live in
          let equal : x ≡ c = cc in (c', (there, rw again), same ∙ sym (ap key equal) ∙ named)
      | inr apart ↦ (x, (there, rw (apart, found)), named)
    ]

pub stored-Valid :
    (s : Process) (p : ℕ) (c c' : Client)
    → Live s p c
    → Same c' c
    → Valid s
    → Valid (stored_at p c' s)
stored-Valid s p c c' live (name, sock) v = record {
  names = Owned-store (λ c. c.name) s s.name_clients p c c' live name v.names;
  socks = Owned-store (λ c. c.sock) s s.clients p c c' live sock v.socks;
  names_once = v.names_once;
  socks_once = v.socks_once;
  free = v.free;
}

-- Nothing is closed where the descriptor is -1.
removed-Valid :
    (s : Process) (p : ℕ) (c : Client)
    → Live s p c
    → Valid s
    → Valid (record (freed p (unlisted c s)) { locked = false })
removed-Valid s p c live v = record {
  names = Owned-erase (λ c. c.name) s s.name_clients p c v.names_once live v.names;
  socks = Owned-erase (λ c. c.sock) s s.clients p c v.socks_once live v.socks;
  names_once = NodupKeys-erase c.name s.name_clients v.names_once;
  socks_once = NodupKeys-erase c.sock s.clients v.socks_once;
  free = refl;
}

remove_client-unopened :
    (s : Process) (p : ℕ) (c : Client)
    → s.locked ≡ false
    → Live s p c
    → (c.sock ==ℤ minus_one) ≡ true
    → remove_client p s ≡ done tt (record (freed p (unlisted c s)) { locked = false })
unfolding remove_client delete_client
remove_client-unopened s p c free (here, live) unopened =
    rw (free, here, live, delete_client, live, unopened)

pub remove_client-Sound : (s : Process) (p : ℕ) → Valid s → Sound (remove_client p s)
unfolding remove_client
remove_client-Sound s p v = elim (Bool-cases (p == 0)) [
  | inl null ↦ rw (v.free, null) tt
  | inr here ↦ elim (Option-cases (s.heap p)) [
    | inl gone ↦ rw (v.free, here, gone) tt
    | inr (c, live) ↦ elim (Bool-cases (c.sock ==ℤ minus_one)) [
      | inl unopened ↦
          subst Sound (sym (remove_client-unopened s p c v.free (here, live) unopened))
            (removed-Valid s p c (here, live) v)
      | inr opened ↦
          let (t, e, v', _, _, _, _, _) = remove_client-Valid s p c v (here, live) opened in
          subst Sound (sym e) v'
    ]
  ]
]
