-- ===== src/Server3/FifoList/Order.antt =====
-- What goes into the queues of 3.0/server comes out in the same order.
use as3chat.Common.{
  ℕ, zero, suc, ◌+◌, ◌≤◌, ◌≡◌, refl, sym, ap, ◌∙◌, ◌⊎◌, inl, inr, false, Option, none, some, List,
  [], ◌∷◌, ◌++◌, append_assoc, append-nil, arith,
}
use as3chat.Common.Tests.{◌==◌, if◌then◌else◌}
use as3chat.Common.Int.{ℤ, pos, ◌<ℤ◌}
use as3chat.Common.Lists.{length, length-append}
use as3chat.Server3.FifoList.{FifoList, front, new, is_full, enqueued, push, pop, buffer_packet}

module _ {ℓ} {A : Type ℓ} where
  -- There is room for `n` more packets.
  abbrev pub HasRoom : FifoList A → ℕ → Type 0
  HasRoom f n =
      ((pos 0 <ℤ f.max_size) ≡ false)
      ⊎ ((m : ℕ) × (f.max_size ≡ pos m) × (length f.packets + n ≤ m))

  abbrev pub push_all : List A → FifoList A → Option (FifoList A)
  push_all [] f = some f
  push_all (x ∷ xs) f = elim (push x f) [ none ↦ none | some g ↦ push_all xs g ]

  abbrev pub buffer_all : List A → FifoList A → FifoList A
  buffer_all [] f = f
  buffer_all (x ∷ xs) f = buffer_all xs (buffer_packet x f)

  -- What `n` times `pop` gives.
  abbrev pub pop_all : ℕ → FifoList A → List A
  pop_all zero f = []
  pop_all (suc n) f = elim (pop f) [ none ↦ [] | some r ↦ r.0 ∷ pop_all n r.1 ]

  HasRoom-is_full : (f : FifoList A) (n : ℕ) → HasRoom f (suc n) → is_full f ≡ false
  unfolding is_full
  HasRoom-is_full f n (inl unbounded) = rw unbounded
  HasRoom-is_full f n (inr (m, e, h)) = ground arith

  HasRoom-enqueued : (x : A) (f : FifoList A) (n : ℕ) → HasRoom f (suc n) → HasRoom (enqueued x f) n
  HasRoom-enqueued x f n (inl unbounded) = inl unbounded
  HasRoom-enqueued x f n (inr (m, e, h)) =
      inr (m, e, omega (arith, length-append f.packets (x ∷ [])))

  push_all-packets :
      (xs : List A) (f : FifoList A)
      → HasRoom f (length xs)
      → push_all xs f ≡ some (record f { packets = f.packets ++ xs })
  unfolding push
  push_all-packets [] f room =
      ap (λ p. some (record f { packets = p })) (sym (append-nil f.packets))
  push_all-packets (x ∷ xs) f room =
      rw (HasRoom-is_full f (length xs) room, push_all)
        (push_all-packets xs (enqueued x f) (HasRoom-enqueued x f (length xs) room)
          ∙ ap (λ p. some (record f { packets = p })) (append_assoc f.packets (x ∷ []) xs))

  buffer_all-packets :
      (xs : List A) (f : FifoList A)
      → HasRoom f (length xs)
      → buffer_all xs f ≡ record f { packets = f.packets ++ xs }
  unfolding buffer_packet
  buffer_all-packets [] f room = ap (λ p. record f { packets = p }) (sym (append-nil f.packets))
  buffer_all-packets (x ∷ xs) f room = rw (HasRoom-is_full f (length xs) room) (
      buffer_all-packets xs (enqueued x f) (HasRoom-enqueued x f (length xs) room)
      ∙ ap (λ p. record f { packets = p }) (append_assoc f.packets (x ∷ []) xs))

  pop_all-packets :
      (m : ℤ) (xs : List A) → pop_all (length xs) (record { packets = xs; max_size = m }) ≡ xs
  unfolding pop
  pop_all-packets m [] = refl
  pop_all-packets m (x ∷ xs) = ap (λ ys. x ∷ ys) (pop_all-packets m xs)

  abbrev pub PopCases : FifoList A → Type ℓ
  PopCases f =
      ((f.packets ≡ []) × (pop f ≡ none))
      ⊎ ((x : A) × (xs : List A) × (f.packets ≡ x ∷ xs)
          × (pop f ≡ some (x, record f { packets = xs })))

  pop-at : (f : FifoList A) (ps : List A) → f.packets ≡ ps → PopCases f
  unfolding pop front
  pop-at f [] e = inl (e, rw (pop, e))
  pop-at f (x ∷ xs) e = inr (x, xs, e, rw (pop, e))

  pub pop-cases : (f : FifoList A) → PopCases f
  pop-cases f = pop-at f f.packets refl

  full_at :
      (m : ℕ) (xs : List A)
      → is_full (record { packets = xs; max_size = pos (suc m) }) ≡ (length xs == suc m)
  unfolding is_full
  full_at m xs = ground arith

-- Packets that are pushed into an empty queue come out of it in the same order, if they are no more than
-- it holds. One more throws exactly where the queue is full by then, and where the buffer drops packets
-- instead it changes nothing there. Condition: the bound is positive.
pub pop_all-push_all {ℓ} :
    {A : Type ℓ} (m : ℕ) (x : A) (xs : List A)
    → length xs ≤ suc m
    → (f : FifoList A) × (push_all xs (new (pos (suc m))) ≡ some f)
      × (buffer_all xs (new (pos (suc m))) ≡ f)
      × (pop_all (length xs) f ≡ xs)
      × (push x f ≡ (if length xs == suc m then none else some (enqueued x f)))
      × (buffer_packet x f ≡ (if length xs == suc m then f else enqueued x f))
unfolding push buffer_packet
pop_all-push_all {A} m x xs h =
    let room : HasRoom (new {A = A} (pos (suc m))) (length xs) =
      inr (suc m, refl, omega (arith, h)) in
    (
      record { packets = xs; max_size = pos (suc m) },
      push_all-packets xs (new (pos (suc m))) room,
      buffer_all-packets xs (new (pos (suc m))) room,
      pop_all-packets (pos (suc m)) xs,
      rw (full_at m xs),
      rw (full_at m xs),
    )
