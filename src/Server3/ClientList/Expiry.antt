-- ===== src/Server3/ClientList/Expiry.antt =====
-- ClientList::keepAlive, which a task calls every minute.
use as3chat.Common.{
  ℕ, ◌≡◌, refl, sym, subst, ap, ◌∙◌, ◌⊎◌, inl, inr, false, none, some, [], ◌∷◌, arith,
}
use as3chat.Common.Tests.{◌==◌, if◌then◌else◌, Bool-cases, Option-cases}
use as3chat.Common.Int.{ℤ, ◌==ℤ◌, ◌<ℤ◌}
use as3chat.Server3.Dict.{Dict, lookup, int_key}
use as3chat.Server3.Dict.Laws.{NodupKeys}
use as3chat.Server3.Client.{Client}
use as3chat.Server3.Process.{Process, Outcome, done, raised, deadlock, crash, load, and_then}
use as3chat.Server3.ClientList.{is_expired, keep_alive_loop, keep_alive}
use as3chat.Server3.ClientList.Keeping.{Sound}
use as3chat.Server3.ClientList.Adding.{Live, Owned, Valid}

is_expired-past :
    (now : ℤ) (c : Client) → (now <ℤ c.lastresponsetime) ≡ false → is_expired now c ≡ false
is_expired-past now c h = ground arith

-- Nobody has been heard of later than now.
abbrev pub Past : ℤ → Process → Type 0
Past now s = (p : ℕ) (c : Client) → s.heap p ≡ some c → (now <ℤ c.lastresponsetime) ≡ false

-- Every entry leads to a live client.
abbrev AllLive : Process → Dict ℤ ℕ → Type 0
AllLive s [] = Unit
AllLive s ((_, p) ∷ d) = ((c : Client) × Live s p c) × AllLive s d

keep_alive_loop-Past :
    (now : ℤ) (s : Process) (d : Dict ℤ ℕ)
    → Past now s
    → AllLive s d
    → keep_alive_loop now d s ≡ done d s
unfolding keep_alive_loop
keep_alive_loop-Past now s [] past live = refl
keep_alive_loop-Past now s ((fd, p) ∷ d) past ((c, (here, found)), live) =
    rw (here, found, keep_alive_loop-Past now s d past live, is_expired-past now c (past p c found))

Owned-AllLive : (s : Process) (d : Dict ℤ ℕ) → NodupKeys d → Owned (λ c. c.sock) s d → AllLive s d
unfolding lookup
Owned-AllLive s [] once owned = tt
Owned-AllLive s ((fd, p) ∷ d) (new, once) owned =
    let (c, live, named) = owned fd p (ground (arith, int_key.same_iff fd fd)) in
    ((c, live), Owned-AllLive s d once (λ j q h. owned j q (ground (arith, int_key.same_iff j fd))))

load-freed : (s : Process) (p : ℕ) → s.heap p ≡ none → load p s ≡ crash
load-freed s p freed = elim (Bool-cases (p == 0)) [
  | inl null ↦ rw null
  | inr apart ↦ rw (apart, freed)
]

load-cases : (s : Process) (p : ℕ) → (load p s ≡ crash) ⊎ ((c : Client) × (load p s ≡ done c s))
load-cases s p = elim (Bool-cases (p == 0)) [
  | inl null ↦ inl (rw null)
  | inr apart ↦ elim (Option-cases (s.heap p)) [
    | inl freed ↦ inl (load-freed s p freed)
    | inr (c, found) ↦ inr (c, rw (apart, found))
  ]
]

abbrev kept : ℤ → ℤ → ℕ → Client → Dict ℤ ℕ → Dict ℤ ℕ
kept now fd q c left = if is_expired now c then left else (fd, q) ∷ left

-- What the loop does with an entry once its client is read.
abbrev entry : ℤ → Dict ℤ ℕ → ℤ → ℕ → Client → Process → Outcome (Dict ℤ ℕ)
entry now d fd q c s = and_then (keep_alive_loop now d s) (λ left. done (kept now fd q c left))

keep_alive_loop-read :
    (now : ℤ) (s : Process) (d : Dict ℤ ℕ) (fd : ℤ) (q : ℕ) (r : Outcome Client)
    → load q s ≡ r
    → keep_alive_loop now ((fd, q) ∷ d) s ≡ and_then r (entry now d fd q)
unfolding keep_alive_loop
keep_alive_loop-read now s d fd q r e = ap (λ r. and_then r (entry now d fd q)) e

-- The loop ends at the first freed client.
keep_alive_loop-crashes :
    (now : ℤ) (s : Process) (d : Dict ℤ ℕ) (fd : ℤ) (p : ℕ)
    → lookup fd d ≡ some p
    → s.heap p ≡ none
    → keep_alive_loop now d s ≡ crash
unfolding lookup
keep_alive_loop-crashes now s [] fd p listed freed = absurd cc
keep_alive_loop-crashes now s ((fd', q) ∷ d) fd p listed freed = elim (Bool-cases (fd ==ℤ fd')) [
  | inl same ↦
      let there : q ≡ p = ground (arith, listed, same) in
      keep_alive_loop-read now s d fd' q crash (load-freed s q (ap s.heap there ∙ freed))
  | inr other ↦ elim (load-cases s q) [
    | inl dead ↦ keep_alive_loop-read now s d fd' q crash dead
    | inr (c, live) ↦
        let further = keep_alive_loop-crashes now s d fd p (ground (arith, listed, other)) freed in
        keep_alive_loop-read now s d fd' q (done c s) live
        ∙ ap (λ r. and_then r (λ left. done (kept now fd' q c left))) further
  ]
]

pub keep_alive-crashes :
    (now : ℤ) (s : Process) (fd : ℤ) (p : ℕ)
    → lookup fd s.clients ≡ some p
    → s.heap p ≡ none
    → keep_alive now s ≡ crash
unfolding keep_alive
keep_alive-crashes now s fd p listed freed =
    rw (keep_alive_loop-crashes now s s.clients fd p listed freed)

-- A part of the entries, each key with its value or without one.
abbrev Stays : Dict ℤ ℕ → Dict ℤ ℕ → Type 0
Stays d left = (k : ℤ) → (lookup k left ≡ lookup k d) ⊎ (lookup k left ≡ none)

abbrev Leaves : Process → Dict ℤ ℕ → Outcome (Dict ℤ ℕ) → Type 0
Leaves s d (done left t) = (t ≡ s) × Stays d left × NodupKeys left
Leaves s d (raised t) = t ≡ s
Leaves s d crash = Unit
Leaves s d deadlock = Unit

Stays-drop :
    (fd : ℤ) (q : ℕ) (d left : Dict ℤ ℕ)
    → lookup fd d ≡ none
    → Stays d left
    → Stays ((fd, q) ∷ d) left
unfolding lookup
Stays-drop fd q d left new stays k = elim (Bool-cases (k ==ℤ fd)) [
  | inl same ↦
      let (to, _) = int_key.same_iff k fd in
      let gone : lookup k d ≡ none = ap (λ i. lookup i d) (to same) ∙ new in
      elim (stays k) [ inl kept ↦ inr (kept ∙ gone) | inr none_left ↦ inr none_left ]
  | inr other ↦ rw other (stays k)
]

Stays-keep :
    (fd : ℤ) (q : ℕ) (d left : Dict ℤ ℕ) → Stays d left → Stays ((fd, q) ∷ d) ((fd, q) ∷ left)
unfolding lookup
Stays-keep fd q d left stays k = elim (Bool-cases (k ==ℤ fd)) [
  | inl same ↦ rw same (inl refl)
  | inr other ↦ rw other (stays k)
]

Leaves-kept :
    (now : ℤ) (s : Process) (d : Dict ℤ ℕ) (fd : ℤ) (q : ℕ) (c : Client) (r : Outcome (Dict ℤ ℕ))
    → lookup fd d ≡ none
    → Leaves s d r
    → Leaves s ((fd, q) ∷ d) (and_then r (λ left. done (kept now fd q c left)))
Leaves-kept now s d fd q c (raised t) new l = l
Leaves-kept now s d fd q c crash new l = tt
Leaves-kept now s d fd q c deadlock new l = tt
Leaves-kept now s d fd q c (done left t) new (same, stays, once) =
    elim (Bool-cases (is_expired now c)) [
      | inl expired ↦ rw expired (same, Stays-drop fd q d left new stays, once)
      | inr alive ↦
          let gone : lookup fd left ≡ none = elim (stays fd) [ inl k ↦ k ∙ new | inr k ↦ k ] in
          rw alive (same, Stays-keep fd q d left stays, (gone, once))
    ]

keep_alive_loop-Leaves :
    (now : ℤ) (s : Process) (d : Dict ℤ ℕ) → NodupKeys d → Leaves s d (keep_alive_loop now d s)
unfolding keep_alive_loop
keep_alive_loop-Leaves now s [] once = (refl, (λ k. inl refl), tt)
keep_alive_loop-Leaves now s ((fd, q) ∷ d) (new, once) = elim (load-cases s q) [
  | inl dead ↦
      subst (Leaves s ((fd, q) ∷ d)) (sym (keep_alive_loop-read now s d fd q crash dead)) tt
  | inr (c, live) ↦
      subst (Leaves s ((fd, q) ∷ d)) (sym (keep_alive_loop-read now s d fd q (done c s) live)) (
        Leaves-kept now s d fd q c (keep_alive_loop now d s) new
          (keep_alive_loop-Leaves now s d once))
]

left-Valid :
    (s t : Process) (left : Dict ℤ ℕ)
    → t ≡ s
    → Stays s.clients left
    → NodupKeys left
    → Valid s
    → Valid (record t { clients = left })
left-Valid s t left same stays once v =
    subst (λ u. Valid (record u { clients = left })) (sym same)
      (record {
        names = v.names;
        socks = λ k p h. elim (stays k) [
          | inl kept ↦ v.socks k p (sym kept ∙ h)
          | inr gone ↦ (let bad : none ≡ some p = sym gone ∙ h in absurd cc)
        ];
        names_once = v.names_once;
        socks_once = once;
        free = v.free;
      })

keep_alive-left :
    (s : Process) (r : Outcome (Dict ℤ ℕ))
    → Leaves s s.clients r
    → Valid s
    → Sound (and_then r (λ left t. done tt (record t { clients = left })))
keep_alive-left s (done left t) (same, stays, once) v = left-Valid s t left same stays once v
keep_alive-left s (raised t) same v = subst Valid (sym same) v
keep_alive-left s crash l v = tt
keep_alive-left s deadlock l v = tt

pub keep_alive-Sound : (now : ℤ) (s : Process) → Valid s → Sound (keep_alive now s)
unfolding keep_alive
keep_alive-Sound now s v =
    keep_alive-left s (keep_alive_loop now s.clients s)
      (keep_alive_loop-Leaves now s s.clients v.socks_once) v

-- keepAlive throws nobody out, however long a client has been silent, since it subtracts the current time
-- from the last one: the list stays as it is. Conditions: every entry leads to a live client, and nobody
-- was last heard of in the future.
pub keep_alive-Past : (now : ℤ) (s : Process) → Valid s → Past now s → keep_alive now s ≡ done tt s
unfolding keep_alive
keep_alive-Past now s v past =
    rw (keep_alive_loop-Past now s s.clients past (Owned-AllLive s s.clients v.socks_once v.socks))
