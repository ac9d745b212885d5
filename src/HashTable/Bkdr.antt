-- ===== src/HashTable/Bkdr.antt =====
-- `BKDRHash` of 1.0/server/hash.c and the polynomial that it computes.
use as3chat.Common.{ℕ, ◌+◌, ◌*◌, ◌%◌, ◌^◌, ◌≡◌, ◌<◌, refl, inl, inr, [], ◌∷◌, arith}
use mathlib.Core.List.{reverse, reverse_aux}
use as3chat.Common.Tests.{ltb, if◌then◌else◌, Bool-cases}
use as3chat.Common.Text.{Bytes}
use as3chat.HashTable.{char_value, bkdr_loop, bkdr_hash}

-- The polynomial in 131 whose coefficients are the bytes of the text, from the constant one on.
abbrev pub polynomial : Bytes → ℕ
polynomial [] = 0
polynomial (b ∷ bs) = b + 131 * polynomial bs

-- By how much it is too large where the bytes from 128 up stand for `b - 256`.
abbrev pub excess : Bytes → ℕ
excess [] = 0
excess (b ∷ bs) = (if ltb b 128 then 0 else 256) + 131 * excess bs

bkdr_loop-polynomial :
    (h : ℕ) (acc bs : Bytes)
    → (h + excess acc) % 2 ^ 32 ≡ polynomial acc % 2 ^ 32
    → (bkdr_loop h bs + excess (reverse_aux bs acc)) % 2 ^ 32
      ≡ polynomial (reverse_aux bs acc) % 2 ^ 32
unfolding bkdr_loop char_value
bkdr_loop-polynomial h acc [] e = e
bkdr_loop-polynomial h acc (b ∷ bs) e =
    bkdr_loop-polynomial ((h * 131 + char_value b) % 2 ^ 32) (b ∷ acc) bs
      (elim (Bool-cases (ltb b 128)) [
        | inl low ↦ rw low (omega (arith, e))
        | inr high ↦ rw high (omega (arith, e))
      ])

-- The hash of a text is the polynomial in 131 over its characters as signed chars, the last one being the
-- constant coefficient, modulo 2 ^ 31: it is the polynomial over the bytes less 256 times the one over the
-- places of the bytes from 128 up. And it is below 2 ^ 31.
pub bkdr_hash-polynomial :
    (bs : Bytes)
    → ((bkdr_hash bs + excess (reverse bs)) % 2 ^ 31 ≡ polynomial (reverse bs) % 2 ^ 31)
      × (bkdr_hash bs < 2 ^ 31)
unfolding bkdr_hash
bkdr_hash-polynomial bs = (omega (arith, bkdr_loop-polynomial 0 [] bs refl), omega arith)
