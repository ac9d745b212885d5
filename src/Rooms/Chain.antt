-- ===== src/Rooms/Chain.antt =====
-- What a room's list stands for: the addresses and contents of its clients, first to last.
use as3chat.Common.{
  ℕ, ◌≡◌, refl, sym, ap, ◌∙◌, ◌≢◌, Bool, false, ◌||◌, Option, some, List, [], ◌∷◌, ◌++◌, arith,
}
use as3chat.Common.Tests.{◌==◌, ==_ne}
use as3chat.Server.{Ptr, null, Client, State, ok}
use as3chat.Server.Commands.{load, update}

abbrev pub Members : Type 0
Members = List (Ptr × Client)

abbrev pub head_or : Ptr → Members → Ptr
head_or stop [] = stop
head_or stop ((p, _) ∷ xs) = p

-- The address in `rooms[r].client`.
abbrev pub head : Members → Ptr
head = head_or null

abbrev pub linked : Client → Ptr → Client
linked c q = record c { next = q }

-- The heap holds the clients `xs`, each linked to the one behind it and the last to `stop`. The
-- `next` of the listed contents counts for nothing.
abbrev pub ChainTo : (Ptr → Option Client) → Ptr → Members → Type 0
ChainTo h stop [] = Unit
ChainTo h stop ((p, c) ∷ xs) =
    (p ≢ null) × (h p ≡ some (linked c (head_or stop xs))) × ChainTo h stop xs

abbrev pub Chain : (Ptr → Option Client) → Members → Type 0
Chain h = ChainTo h null

abbrev pub has : Ptr → Members → Bool
has p [] = false
has p ((q, _) ∷ xs) = (p == q) || has p xs

-- No address is listed twice.
abbrev pub Distinct : Members → Type 0
Distinct [] = Unit
Distinct ((p, _) ∷ xs) = (has p xs ≡ false) × Distinct xs

abbrev pub last : Ptr × Client → Members → Ptr × Client
last m [] = m
last m (n ∷ xs) = last n xs

pub load-ok : (s : State) (p : Ptr) (c : Client) → p ≢ null → s.heap p ≡ some c → load p s ≡ ok c s
unfolding load
load-ok s p c n e = rw (==_ne p null n, e)

-- A write to an address that is not listed.
pub frame :
    (h : Ptr → Option Client) (stop : Ptr) (xs : Members) (p : Ptr) (v : Option Client)
    → has p xs ≡ false
    → ChainTo h stop xs
    → ChainTo (update h p v) stop xs
unfolding update
frame h stop [] p v out ch = tt
frame h stop ((q, c) ∷ xs) p v out (n, e, ch) =
    (n, ground arith, frame h stop xs p v (ground arith) ch)

pub append-Chain :
    (h : Ptr → Option Client) (stop : Ptr) (xs ys : Members)
    → ChainTo h (head_or stop ys) xs
    → ChainTo h stop ys
    → ChainTo h stop (xs ++ ys)
append-Chain h stop [] ys ch ch' = ch'
append-Chain h stop ((p, c) ∷ []) ys (n, e, ch) ch' = (n, e, ch')
append-Chain h stop ((p, c) ∷ x ∷ xs) ys (n, e, ch) ch' =
    (n, e, append-Chain h stop (x ∷ xs) ys ch ch')

pub Chain-prefix :
    (h : Ptr → Option Client) (stop : Ptr) (xs ys : Members)
    → ChainTo h stop (xs ++ ys)
    → ChainTo h (head_or stop ys) xs × ChainTo h stop ys
Chain-prefix h stop [] ys ch = (tt, ch)
Chain-prefix h stop ((p, c) ∷ []) ys (n, e, ch) = ((n, e, tt), ch)
Chain-prefix h stop ((p, c) ∷ x ∷ xs) ys (n, e, ch) =
    let both = Chain-prefix h stop (x ∷ xs) ys ch in ((n, e, both.0), both.1)

pub has-append : (p : Ptr) (xs ys : Members) → has p (xs ++ ys) ≡ (has p xs || has p ys)
has-append p [] ys = refl
has-append p (x ∷ xs) ys = ground (arith, has-append p xs ys)

pub has-front : (p : Ptr) (xs ys : Members) → has p (xs ++ ys) ≡ false → has p xs ≡ false
has-front p xs ys h = ground (arith, has-append p xs ys)

pub has-ne :
    (q : Ptr) (xs : Members) (p : Ptr) (c : Client) (ys : Members)
    → has q (xs ++ (p, c) ∷ ys) ≡ false
    → (q == p) ≡ false
has-ne q xs p c ys h = ground (arith, has-append q xs ((p, c) ∷ ys))

pub has-last :
    (p : Ptr) (m : Ptr × Client) (xs : Members)
    → has p (m ∷ xs) ≡ false
    → (p == (last m xs).0) ≡ false
has-last p m [] out = ground arith
has-last p m (x ∷ xs) out = has-last p x xs (ground arith)

-- Linking the last client of a list elsewhere.
pub Chain-relink :
    (h : Ptr → Option Client) (stop : Ptr) (m : Ptr × Client) (xs : Members) (q : Ptr)
    → Distinct (m ∷ xs)
    → ChainTo h stop (m ∷ xs)
    → ChainTo (update h (last m xs).0 (some (linked (last m xs).1 q))) q (m ∷ xs)
unfolding update
Chain-relink h stop (p, c) [] q d (n, e, _) = (n, ground arith, tt)
Chain-relink h stop (p, c) (x ∷ xs) q (out, d) (n, e, ch) =
    (n, rw (has-last p x xs out) e, Chain-relink h stop x xs q d ch)

-- No address of the first list stands in the second.
abbrev pub Apart : Members → Members → Type 0
Apart [] ys = Unit
Apart ((p, _) ∷ xs) ys = (has p ys ≡ false) × Apart xs ys

pub Distinct-split :
    (xs ys : Members) → Distinct (xs ++ ys) → Distinct xs × Distinct ys × Apart xs ys
Distinct-split [] ys d = (tt, d, tt)
Distinct-split ((p, c) ∷ xs) ys (out, d) =
    let (dx, dy, apart) = Distinct-split xs ys d in
    ((ground (arith, has-append p xs ys), dx), dy, (ground (arith, has-append p xs ys), apart))

pub Distinct-join :
    (xs ys : Members) → Distinct xs → Distinct ys → Apart xs ys → Distinct (xs ++ ys)
Distinct-join [] ys dx dy apart = dy
Distinct-join ((p, c) ∷ xs) ys (out, dx) dy (o, apart) =
    (ground (arith, has-append p xs ys), Distinct-join xs ys dx dy apart)

pub has-last-Apart :
    (m : Ptr × Client) (xs ys : Members) → Apart (m ∷ xs) ys → has (last m xs).0 ys ≡ false
has-last-Apart m [] ys apart = apart.0
has-last-Apart m (x ∷ xs) ys apart = has-last-Apart x xs ys apart.1

-- What stands in front of `p` is not `p`, and neither is what stands behind it.
pub Apart-head :
    (p : Ptr) (c : Client) (xs ys : Members)
    → Apart xs ((p, c) ∷ ys)
    → (has p xs ≡ false) × Apart xs ys
Apart-head p c [] ys apart = (refl, tt)
Apart-head p c ((q, d) ∷ xs) ys (o, apart) =
    let (out, apart') = Apart-head p c xs ys apart in (ground arith, (ground arith, apart'))

-- `fd_clients` leads from the descriptor of each member to the member.
abbrev pub Known : (ℕ → Ptr) → Members → Type 0
Known f [] = Unit
Known f ((p, c) ∷ xs) = (f c.fd ≡ p) × Known f xs

abbrev pub FreshFd : ℕ → Members → Type 0
FreshFd fd [] = Unit
FreshFd fd ((_, c) ∷ xs) = ((c.fd == fd) ≡ false) × FreshFd fd xs

pub Known-FreshFd :
    (f : ℕ → Ptr) (fd : ℕ) (p : Ptr) (xs : Members)
    → f fd ≡ p
    → has p xs ≡ false
    → Known f xs
    → FreshFd fd xs
Known-FreshFd f fd p [] e out known = tt
Known-FreshFd f fd p ((q, d) ∷ xs) e out (known, rest) = (
  ==_ne d.fd fd (λ same. ne (sym known ∙ ap f same ∙ e)),
  Known-FreshFd f fd p xs e (ground arith) rest,
)
  where
    ne : q ≢ p
    ne h = ground arith

pub Apart-one : (p : Ptr) (c : Client) (xs : Members) → has p xs ≡ false → Apart xs ((p, c) ∷ [])
Apart-one p c [] out = tt
Apart-one p c ((q, d) ∷ xs) out = (ground arith, Apart-one p c xs (ground arith))

pub Apart-snoc :
    (ys xs : Members) (p : Ptr) (c : Client)
    → Apart ys xs
    → has p ys ≡ false
    → Apart ys (xs ++ (p, c) ∷ [])
Apart-snoc [] xs p c apart out = tt
Apart-snoc ((q, d) ∷ ys) xs p c (o, apart) out =
    (ground (arith, has-append q xs ((p, c) ∷ [])), Apart-snoc ys xs p c apart (ground arith))

pub Apart-middle :
    (xs : Members) (p : Ptr) (c : Client) (ys zs : Members)
    → Apart (xs ++ (p, c) ∷ ys) zs
    → has p zs ≡ false
Apart-middle [] p c ys zs apart = apart.0
Apart-middle (x ∷ xs) p c ys zs apart = Apart-middle xs p c ys zs apart.1

-- A client that is listed once is not among the others.
pub Distinct-middle :
    (xs : Members) (p : Ptr) (c : Client) (ys : Members)
    → Distinct (xs ++ (p, c) ∷ ys)
    → has p (xs ++ ys) ≡ false
Distinct-middle xs p c ys d =
    let (dx, (out, dy), apart) = Distinct-split xs ((p, c) ∷ ys) d in
    rw (has-append p xs ys, (Apart-head p c xs ys apart).0) out
