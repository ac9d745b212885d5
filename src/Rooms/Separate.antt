-- ===== src/Rooms/Separate.antt =====
-- The lists of two rooms share no client, and what happens to one spares the other.
use as3chat.Common.{ℕ, ◌≡◌, sym, ap, ◌∙◌, ◌≢◌, inl, inr, true, false, Option, some, [], ◌∷◌, arith}
use as3chat.Common.Tests.{◌==◌, Bool-cases, ==_iff}
use as3chat.Common.Int.{pos}
use as3chat.Server.{Ptr, Client, State}
use as3chat.Rooms.Chain.{Members, ChainTo, Chain, has, Apart}
use as3chat.Rooms.Leave.{AllSit, Roster}

-- The heap puts every member of a room into that room.
member-roomid :
    (h : Ptr → Option Client) (f : ℕ → Ptr) (r : ℕ) (stop q : Ptr) (xs : Members) (d : Client)
    → ChainTo h stop xs
    → AllSit f r xs
    → has q xs ≡ true
    → h q ≡ some d
    → d.roomid ≡ pos r
member-roomid h f r stop q [] d ch all i e = cc
member-roomid h f r stop q ((p, c) ∷ xs) d (n, e', ch) (v, all) i e = elim (Bool-cases (q == p)) [
  | inl same ↦ ground (arith, v.room, ap h ((==_iff q p).0 same))
  | inr other ↦ member-roomid h f r stop q xs d ch all (ground arith) e
]

apart :
    (h : Ptr → Option Client) (f : ℕ → Ptr) (i j : ℕ) (stop : Ptr) (xs ys : Members)
    → i ≢ j
    → ChainTo h stop xs
    → AllSit f i xs
    → Chain h ys
    → AllSit f j ys
    → Apart xs ys
apart h f i j stop [] ys ne cx ax cy ay = tt
apart h f i j stop ((p, c) ∷ xs) ys ne (n, e, cx) (v, ax) cy ay = (
  elim (Bool-cases (has p ys)) [
    | inl both ↦
        absurd (ne (pos-injective (sym v.room ∙ member-roomid h f j 0 p ys _ cy ay both e)))
    | inr out ↦ out
  ],
  apart h f i j stop xs ys ne cx ax cy ay,
)
  where
    pos-injective : {a b : ℕ} → pos a ≡ pos b → a ≡ b
    pos-injective q = cc

pub Roster-Apart :
    (s : State) (i j : ℕ) (xs ys : Members) → i ≢ j → Roster s i xs → Roster s j ys → Apart xs ys
Roster-Apart s i j xs ys ne v w =
    apart s.heap s.fd_clients i j 0 xs ys ne v.seats.chain v.sit w.seats.chain w.sit

chain_spared :
    (h g : Ptr → Option Client) (stop : Ptr) (xs ys : Members)
    → ((q : Ptr) → has q ys ≡ false → g q ≡ h q)
    → Apart xs ys
    → ChainTo h stop xs
    → ChainTo g stop xs
chain_spared h g stop [] ys same ap' ch = tt
chain_spared h g stop ((p, c) ∷ xs) ys same (out, rest) (n, e, ch) =
    (n, same p out ∙ e, chain_spared h g stop xs ys same rest ch)

pub Roster-spared :
    (s t : State) (i : ℕ) (xs ys : Members)
    → ((q : Ptr) → has q ys ≡ false → t.heap q ≡ s.heap q)
    → t.rooms i ≡ s.rooms i
    → t.fd_clients ≡ s.fd_clients
    → Apart xs ys
    → Roster s i xs
    → Roster t i xs
Roster-spared s t i xs ys same er ef ap' v = record {
  seats = record {
    in_range = v.seats.in_range;
    starts = ap (λ u. u.client) er ∙ v.seats.starts;
    chain = chain_spared s.heap t.heap 0 xs ys same ap' v.seats.chain;
  };
  distinct = v.distinct;
  sit = rw ef v.sit;
}
