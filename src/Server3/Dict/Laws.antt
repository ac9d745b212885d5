-- ===== src/Server3/Dict/Laws.antt =====
-- The laws of `find`, `insert`, `erase` and `equal_range` on entries in order.
use as3chat.Common.{◌≡◌, refl, ap, ◌∙◌, inl, inr, true, false, none, some, [], ◌∷◌, ◌++◌, arith}
use as3chat.Common.Tests.{if◌then◌else◌, Bool-cases}
use as3chat.Server3.Dict.{Key, Dict, lookup, insert, erase, values}

module _ {ℓ κ} {K : Type ℓ} {V : Type κ} ⦃e : Key K⦄ where
  -- No entry has a key before `k`.
  abbrev pub NoneLess : K → Dict K V → Type 0
  NoneLess k [] = Unit
  NoneLess k ((j, _) ∷ d) = (e.less j k ≡ false) × NoneLess k d

  abbrev pub IsSorted : Dict K V → Type 0
  IsSorted [] = Unit
  IsSorted ((k, _) ∷ d) = NoneLess k d × IsSorted d

  -- No key twice.
  abbrev pub NodupKeys : Dict K V → Type κ
  NodupKeys [] = Unit
  NodupKeys ((k, _) ∷ d) = (lookup k d ≡ none) × NodupKeys d

  pub lookup-insert :
      (j k : K) (v : V) (d : Dict K V)
      → lookup k d ≡ none
      → lookup j (insert k v d) ≡ (if e.same j k then some v else lookup j d)
  unfolding lookup insert
  lookup-insert j k v [] h = refl
  lookup-insert j k v ((i, w) ∷ d) h =
      ground (arith, lookup-insert j k v d, e.same_iff j k, e.same_iff j i, e.same_iff k i)

  lookup-erase_ne :
      (j k : K) (d : Dict K V) → e.same j k ≡ false → lookup j (erase k d) ≡ lookup j d
  unfolding lookup erase
  lookup-erase_ne j k [] h = refl
  lookup-erase_ne j k ((i, w) ∷ d) h =
      ground (arith, lookup-erase_ne j k d, e.same_iff j k, e.same_iff j i, e.same_iff k i)

  lookup-erase_self : (k : K) (d : Dict K V) → NodupKeys d → lookup k (erase k d) ≡ none
  unfolding lookup erase
  lookup-erase_self k [] h = refl
  lookup-erase_self k ((i, w) ∷ d) h = ground (arith, lookup-erase_self k d, e.same_iff k i)

  pub lookup-erase :
      (j k : K) (d : Dict K V)
      → NodupKeys d
      → lookup j (erase k d) ≡ (if e.same j k then none else lookup j d)
  lookup-erase j k d once = elim (Bool-cases (e.same j k)) [
    | inl same ↦
        let (to, _) = e.same_iff j k in
        rw same (ap (λ i. lookup i (erase k d)) (to same) ∙ lookup-erase_self k d once)
    | inr other ↦ rw other (lookup-erase_ne j k d other)
  ]

  NoneLess-insert :
      (j k : K) (v : V) (d : Dict K V)
      → e.less k j ≡ false
      → NoneLess j d
      → NoneLess j (insert k v d)
  unfolding insert
  NoneLess-insert j k v [] h n = (h, tt)
  NoneLess-insert j k v ((i, w) ∷ d) h (m, n) = elim (Bool-cases (e.less k i)) [
    | inl before ↦ rw before (h, (m, n))
    | inr behind ↦ rw behind (m, NoneLess-insert j k v d h n)
  ]

  -- What is not before `j` is not before `k`, which is before `j`.
  NoneLess-before : (k j : K) (d : Dict K V) → e.less k j ≡ true → NoneLess j d → NoneLess k d
  NoneLess-before k j [] h n = tt
  NoneLess-before k j ((i, w) ∷ d) h (m, n) =
      (ground (arith, e.less_trans i k j), NoneLess-before k j d h n)

  values-NoneLess : (k j : K) (d : Dict K V) → e.less k j ≡ true → NoneLess j d → values k d ≡ []
  unfolding values
  values-NoneLess k j [] h n = refl
  values-NoneLess k j ((i, w) ∷ d) h (m, n) =
      ground (arith, values-NoneLess k j d h n, e.same_iff k i)

  -- `insert` puts a value behind those of its key.
  pub values-insert :
      (j k : K) (v : V) (d : Dict K V)
      → IsSorted d
      → values j (insert k v d) ≡ (if e.same j k then values j d ++ v ∷ [] else values j d)
  unfolding values insert
  values-insert j k v [] h = refl
  values-insert j k v ((i, w) ∷ d) (n, h) = elim (Bool-cases (e.less k i)) [
    | inl before ↦
        ground
          (arith, values-NoneLess k i d before n, e.same_iff j k, e.same_iff j i, e.less_irrefl k)
    | inr behind ↦ ground (arith, values-insert j k v d h)
  ]

  pub insert-IsSorted : (k : K) (v : V) (d : Dict K V) → IsSorted d → IsSorted (insert k v d)
  unfolding insert
  insert-IsSorted k v [] h = (tt, tt)
  insert-IsSorted k v ((i, w) ∷ d) (n, h) = elim (Bool-cases (e.less k i)) [
    | inl before ↦ rw before (
      (ground (arith, e.less_trans i k i, e.less_irrefl i), NoneLess-before k i d before n),
      (n, h),
    )
    | inr behind ↦ rw behind (NoneLess-insert i k v d behind n, insert-IsSorted k v d h)
  ]

  pub NodupKeys-insert :
      (k : K) (v : V) (d : Dict K V) → lookup k d ≡ none → NodupKeys d → NodupKeys (insert k v d)
  unfolding lookup insert
  NodupKeys-insert k v [] h n = (refl, tt)
  NodupKeys-insert k v ((i, w) ∷ d) h (m, n) = elim (Bool-cases (e.less k i)) [
    | inl before ↦ rw before (h, (m, n))
    | inr behind ↦ rw behind (
        (
          ground (arith, lookup-insert i k v d, e.same_iff i k, e.same_iff k i),
          NodupKeys-insert k v d (ground arith) n,
        ))
  ]

  pub NodupKeys-erase : (k : K) (d : Dict K V) → NodupKeys d → NodupKeys (erase k d)
  unfolding erase
  NodupKeys-erase k [] h = tt
  NodupKeys-erase k ((i, w) ∷ d) (m, n) = elim (Bool-cases (e.same k i)) [
    | inl here ↦ rw here n
    | inr other ↦ rw other (
      ground (arith, lookup-erase_ne i k d, e.same_iff i k, e.same_iff k i),
      NodupKeys-erase k d n,
    )
  ]
