-- ===== src/Rooms/Names.antt =====
-- The names, descriptors and times of the clients after `leave_room` of 1.0/server/function.c.
use as3chat.Common.{
  ℕ, ◌≡◌, refl, sym, ap, ◌∙◌, inl, inr, true, false, Option, none, some, [], ◌∷◌, ◌++◌,
}
use mathlib.Core.Option.{some-injective}
use as3chat.Common.Tests.{◌==◌, if◌then◌else◌, Bool-cases, ==_iff}
use as3chat.Server.{Ptr, null, Client, State}
use as3chat.Rooms.Chain.{Members, linked, head_or, ChainTo, Chain, has, Chain-prefix}
use as3chat.Rooms.Leave.{Left}

-- `q` still holds a client of this name and descriptor, last heard of when it was.
pub record Kept (g : Ptr → Option Client) (q : Ptr) (d : Client) : Type 0 where
  pub now : Client
  pub holds : g q ≡ some now
  pub username : now.username ≡ d.username
  pub fd : now.fd ≡ d.fd
  pub heard : now.keepalivetime ≡ d.keepalivetime

abbrev pub Keeps : (Ptr → Option Client) → (Ptr → Option Client) → Type 0
Keeps h g = (q : Ptr) (d : Client) → h q ≡ some d → Kept g q d

abbrev member : Ptr → Members → Option Client
member q [] = none
member q ((p, c) ∷ xs) = if q == p then some c else member q xs

member-Kept :
    (h : Ptr → Option Client) (stop q : Ptr) (xs : Members) (d : Client)
    → ChainTo h stop xs
    → member q xs ≡ some d
    → Kept h q d
member-Kept h stop q [] d ch e = absurd (cc)
member-Kept h stop q ((p, c) ∷ xs) d (n, e', ch) e = elim (Bool-cases (q == p)) [
  | inl same ↦
      let here : c ≡ d = some-injective c d (rw same at e) in
      record {
        now = linked c (head_or stop xs);
        holds = ap h ((==_iff q p).0 same) ∙ e';
        username = ap (λ v. v.username) here;
        fd = ap (λ v. v.fd) here;
        heard = ap (λ v. v.keepalivetime) here;
      }
  | inr other ↦ member-Kept h stop q xs d ch (rw other at e)
]

member-of_has : (q : Ptr) (xs : Members) → has q xs ≡ true → (d : Client) × (member q xs ≡ some d)
member-of_has q [] i = absurd (cc)
member-of_has q ((p, c) ∷ xs) i = elim (Bool-cases (q == p)) [
  | inl same ↦ (c, rw same)
  | inr other ↦ let rest = member-of_has q xs (rw other at i) in (rest.0, rw other rest.1)
]

member_others :
    (q : Ptr) (xs : Members) (p : Ptr) (c : Client) (ys : Members)
    → (q == p) ≡ false
    → member q (xs ++ (p, c) ∷ ys) ≡ member q (xs ++ ys)
member_others q [] p c ys other = rw other
member_others q ((r, d) ∷ xs) p c ys other = rw (member_others q xs p c ys other)

Kept-here : (g : Ptr → Option Client) (q : Ptr) (d : Client) → g q ≡ some d → Kept g q d
Kept-here g q d e = record { now = d; holds = e; username = refl; fd = refl; heard = refl }

-- Two clients that one address holds are one.
Kept-both :
    (h g : Ptr → Option Client) (q : Ptr) (d m : Client)
    → h q ≡ some d
    → Kept h q m
    → Kept g q m
    → Kept g q d
Kept-both h g q d m e old new =
    let same : old.now ≡ d = some-injective old.now d (sym old.holds ∙ e) in
    record {
      now = new.now;
      holds = new.holds;
      username = new.username ∙ sym old.username ∙ ap (λ v. v.username) same;
      fd = new.fd ∙ sym old.fd ∙ ap (λ v. v.fd) same;
      heard = new.heard ∙ sym old.heard ∙ ap (λ v. v.keepalivetime) same;
    }

pub Left-Keeps :
    (s t : State) (r : ℕ) (xs : Members) (p : Ptr) (c : Client) (ys : Members)
    → Chain s.heap (xs ++ (p, c) ∷ ys)
    → Left s t r xs p c ys
    → Keeps s.heap t.heap
Left-Keeps s t r xs p c ys ch l q d e = elim (Bool-cases (has q (xs ++ (p, c) ∷ ys))) [
  | inr out ↦ Kept-here t.heap q d (l.spared q out ∙ e)
  | inl listed ↦ elim (Bool-cases (q == p)) [
    | inl same ↦
        let eq : q ≡ p = (==_iff q p).0 same in
        let (n, at, _) = (Chain-prefix s.heap null xs ((p, c) ∷ ys) ch).1 in
        Kept-both s.heap t.heap q d c e
          (record { now = _; holds = ap s.heap eq ∙ at; username = refl; fd = refl; heard = refl })
          (record {
            now = _;
            holds = ap t.heap eq ∙ l.self;
            username = refl;
            fd = refl;
            heard = refl;
          })
    | inr other ↦
        let (m, at) = member-of_has q (xs ++ (p, c) ∷ ys) listed in
        Kept-both s.heap t.heap q d m e (member-Kept s.heap null q _ m ch at) (
          member-Kept t.heap null q _ m l.roster.seats.chain
            (sym (member_others q xs p c ys other) ∙ at))
  ]
]
