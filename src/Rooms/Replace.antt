-- ===== src/Rooms/Replace.antt =====
-- A list of 1.0/server/function.c whose one client changes in fields other than `next`.
use as3chat.Common.{◌≡◌, refl, Option, some, [], ◌∷◌, ◌++◌}
use as3chat.Common.Tests.{==_refl}
use as3chat.Server.{Ptr, null, Client}
use as3chat.Server.Commands.{update}
use as3chat.Rooms.Chain.{Members, head, linked, has-ne, Chain, Distinct, frame}

pub head-replaced :
    (xs : Members) (q : Ptr) (d d' : Client) (ys : Members)
    → head (xs ++ (q, d') ∷ ys) ≡ head (xs ++ (q, d) ∷ ys)
head-replaced [] q d d' ys = refl
head-replaced (x ∷ xs) q d d' ys = refl

pub Chain-replaced :
    (h : Ptr → Option Client) (xs : Members) (q : Ptr) (d d' : Client) (ys : Members)
    → Distinct (xs ++ (q, d) ∷ ys)
    → Chain h (xs ++ (q, d) ∷ ys)
    → Chain (update h q (some (linked d' (head ys)))) (xs ++ (q, d') ∷ ys)
unfolding update
Chain-replaced h [] q d d' ys (out, _) (n, e, ch) =
    (n, rw (==_refl q), frame h null ys q (some (linked d' (head ys))) out ch)
Chain-replaced h ((p, c) ∷ xs) q d d' ys (out, dist) (n, e, ch) = (
  n,
  rw (has-ne p xs q d ys out, head-replaced xs q d d' ys) e,
  Chain-replaced h xs q d d' ys dist ch,
)
