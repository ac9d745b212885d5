-- ===== src/Nodes/Heartbeat.antt =====
-- One round of `heartbeat` of 1.0/server/function.c.
use as3chat.Common.{
  ℕ, zero, suc, ◌+◌, ◌<◌, ◌≤◌, ◌≡◌, refl, sym, ap, subst, ◌∙◌, ◌≢◌, ◌⊎◌, inl, inr, true, false,
  some, ◌∷◌, ◌++◌, arith,
}
use mathlib.Core.Option.{some-injective}
use as3chat.Common.Tests.{◌==◌, ==_ne, ==_iff, Bool-cases, lt→ltb}
use as3chat.Common.Int.{ℤ}
use as3chat.Common.Lists.{length}
use as3chat.Server.{Ptr, null, max_fds, Client, State, ok}
use as3chat.Server.Commands.{load_fd, update}
use as3chat.Rooms.{return_success}
use as3chat.Rooms.Chain.{Members, head, linked, load-ok, Chain-prefix}
use as3chat.Rooms.Broadcast.{name}
use as3chat.Rooms.Leave.{Roster, AllSit-split}
use as3chat.HashTable.Chains.{Entries, InBucket}
use as3chat.Nodes.{is_idle, beat, heartbeat_loop, heartbeat_round, node_del}
use as3chat.Nodes.Delete.{Deleted, node_del-Deleted}

-- A live client that has been heard of within the last minute.
pub record Awake (now : ℤ) (s : State) (p : Ptr) : Type 0 where
  pub client : Client
  pub ne_null : p ≢ null
  pub live : s.heap p ≡ some client
  pub heard : is_idle now client ≡ false

-- The entry `i` of `fd_clients` is NULL or such a client.
abbrev pub Quiet : ℤ → State → ℕ → Type 0
Quiet now s i = (s.fd_clients i ≡ null) ⊎ Awake now s (s.fd_clients i)

beat-Quiet :
    (k : ℕ) (now : ℤ) (s : State) (i : ℕ) → i < max_fds → Quiet now s i → beat k now i s ≡ ok tt s
unfolding beat load_fd
beat-Quiet k now s i h (inl free) = rw (lt→ltb i max_fds h, free)
beat-Quiet k now s i h (inr v) = rw (
  lt→ltb i max_fds h,
  ==_ne (s.fd_clients i) null v.ne_null,
  load-ok s (s.fd_clients i) v.client v.ne_null v.live,
  v.heard,
)

loop-Quiet :
    (k : ℕ) (now : ℤ) (s : State) (n i : ℕ)
    → i + n ≤ max_fds
    → ((j : ℕ) → i ≤ j → j < i + n → Quiet now s j)
    → heartbeat_loop k now n i s ≡ ok tt s
unfolding heartbeat_loop
loop-Quiet k now s zero i h quiet = refl
loop-Quiet k now s (suc n) i h quiet =
    rw (beat-Quiet k now s i (omega arith) (quiet i (omega arith) (omega arith)))
      (loop-Quiet k now s n (i + 1) (omega arith) (λ j a b. quiet j (omega arith) (omega arith)))

-- A round in which only the beat of the entry `m` does anything, and leads to `t`.
loop-through :
    (k : ℕ) (now : ℤ) (s t : State) (n i m : ℕ)
    → i ≤ m
    → m < i + n
    → i + n ≤ max_fds
    → ((j : ℕ) → i ≤ j → j < m → Quiet now s j)
    → beat k now m s ≡ ok tt t
    → ((j : ℕ) → m < j → j < i + n → Quiet now t j)
    → heartbeat_loop k now n i s ≡ ok tt t
unfolding heartbeat_loop
loop-through k now s t zero i m lo hi h before here after = absurd (omega arith)
loop-through k now s t (suc n) i m lo hi h before here after = elim (Bool-cases (m == i)) [
  | inl hit ↦
      let now_here : beat k now i s ≡ ok tt t =
        subst (λ x. beat k now x s ≡ ok tt t) ((==_iff m i).0 hit) here in
      rw now_here
        (loop-Quiet k now t n (i + 1) (omega arith) (λ j a b. after j (ground arith) (omega arith)))
  | inr later ↦ rw (beat-Quiet k now s i (omega arith) (before i (omega arith) (ground arith))) (
      loop-through k now s t n (i + 1) m (ground arith) (omega arith) (omega arith)
        (λ j a b. before j (omega arith) b) here (λ j a b. after j a (omega arith)))
]

-- The tests read the time only.
is_idle-time :
    (now : ℤ) (c d : Client) → c.keepalivetime ≡ d.keepalivetime → is_idle now c ≡ is_idle now d
unfolding is_idle
is_idle-time now c d e = rw e

-- What was quiet stays so when the idle client `c` at `p` has been deleted.
Quiet-Deleted :
    (now : ℤ) (s t : State) (r : ℕ) (xs : Members) (p : Ptr) (c : Client) (ys : Members)
    (es : Entries) (j : ℕ)
    → s.heap p ≡ some (linked c (head ys))
    → is_idle now c ≡ true
    → Deleted s t r xs p c ys es
    → j ≢ c.fd
    → Quiet now s j
    → Quiet now t j
unfolding update
Quiet-Deleted now s t r xs p c ys es j live idle d ne (inl free) =
    inl (ap (λ f. f j) d.fd_clients ∙ rw (==_ne j c.fd ne) free)
Quiet-Deleted now s t r xs p c ys es j live idle d ne (inr v) =
    let q = s.fd_clients j in
    let there : t.fd_clients j ≡ q = ap (λ f. f j) d.fd_clients ∙ rw (==_ne j c.fd ne) in
    let kept = d.kept q v.client (not_idle q v.client v.live v.heard) v.live in
    subst (λ x. (x ≡ null) ⊎ Awake now t x) (sym there)
      (inr (record {
        client = kept.now;
        ne_null = v.ne_null;
        live = kept.holds;
        heard = is_idle-time now kept.now v.client kept.heard ∙ v.heard;
      }))
  where
    not_idle : (q : Ptr) (e : Client) → s.heap q ≡ some e → is_idle now e ≡ false → q ≢ p
    not_idle q e at awake same =
        let one : e ≡ linked c (head ys) =
          some-injective e (linked c (head ys)) (sym at ∙ ap s.heap same ∙ live) in
        let clash : false ≡ true =
          sym awake ∙ ap (is_idle now) one ∙ is_idle-time now (linked c (head ys)) c refl ∙ idle in
        absurd cc

beat-idle :
    (k : ℕ) (now : ℤ) (s t : State) (i : ℕ) (p : Ptr) (c : Client)
    → i < max_fds
    → s.fd_clients i ≡ p
    → p ≢ null
    → s.heap p ≡ some c
    → is_idle now c ≡ true
    → node_del k p s ≡ ok return_success t
    → beat k now i s ≡ ok tt t
unfolding beat load_fd
beat-idle k now s t i p c h at n live idle gone =
    rw (lt→ltb i max_fds h, at, ==_ne p null n, load-ok s p c n live, idle, gone)

-- A round of the heartbeat in which one client has been silent for more than a minute, and no other,
-- deletes that one and nobody else. Conditions: the idle client sits in a room as the server keeps it,
-- the bucket of its name is keyed by live clients with terminated names, every other entry of
-- `fd_clients` is NULL or a live client that is not idle, and the fuel exceeds the members of the room.
pub heartbeat_round-Deleted :
    (k : ℕ) (now : ℤ) (r : ℕ) (s : State) (xs : Members) (p : Ptr) (c : Client) (ys : Members)
    (es : Entries)
    → Roster s r (xs ++ (p, c) ∷ ys)
    → InBucket s (name c) es
    → length (xs ++ (p, c) ∷ ys) < k
    → is_idle now c ≡ true
    → ((j : ℕ) → j < max_fds → j ≢ c.fd → Quiet now s j)
    → (t : State) × (heartbeat_round k now s ≡ ok tt t) × Deleted s t r xs p c ys es
unfolding heartbeat_round
heartbeat_round-Deleted k now r s xs p c ys es here v fuel idle quiet =
    let (n, live, _) = (Chain-prefix s.heap null xs ((p, c) ∷ ys) here.seats.chain).1 in
    let sits = (AllSit-split s.fd_clients r xs ((p, c) ∷ ys) here.sit).1.0 in
    let (t, gone, d) = node_del-Deleted k r s xs p c ys es here v fuel in
    (
      t,
      loop-through k now s t max_fds 0 c.fd (omega arith) (omega (arith, sits.fd_range))
          (omega arith)
          (λ j a b. quiet j (omega (arith, sits.fd_range)) (λ e. absurd (omega arith)))
          (beat-idle k now s t c.fd p (linked c (head ys)) sits.fd_range sits.known n live
            (is_idle-time now (linked c (head ys)) c refl ∙ idle) gone)
          (λ j a b.
            Quiet-Deleted now s t r xs p c ys es j live idle d (λ e. absurd (omega arith))
              (quiet j (omega arith) (λ e. absurd (omega arith)))),
      d,
    )
