-- ===== src/Server3/Dict.antt =====
-- `std::map` and `std::multimap` of the C++ library as lists of entries in the order of their keys.
pub mod Laws
use as3chat.Common.{
  ℕ, ◌≡◌, ◌<◌, refl, ap, ◌∙◌, Bool, true, false, ◌&&◌, Option, none, some, List, [], ◌∷◌, arith,
}
use mathlib.Core.Logic.{◌↔◌}
use as3chat.Common.Tests.{ltb, ◌==◌, ==_iff, if◌then◌else◌}
use as3chat.Common.Int.{ℤ, pos, negsuc, ◌==ℤ◌, ◌<ℤ◌}
use as3chat.Common.Text.{Bytes, str_eq}

-- `operator==` and `operator<` of a type of keys.
pub record Key {ℓ} (K : Type ℓ) : Type ℓ where
  pub same : K → K → Bool
  pub less : K → K → Bool
  pub same_iff : (a b : K) → (same a b ≡ true) ↔ (a ≡ b)
  pub less_irrefl : (a : K) → less a a ≡ false
  pub less_trans : (a b c : K) → less a b ≡ true → less b c ≡ true → less a c ≡ true

abbrev pub Dict {ℓ κ} : Type ℓ → Type κ → Type (ℓ ⊔ κ)
Dict K V = List (K × V)

module _ {ℓ κ} {K : Type ℓ} {V : Type κ} ⦃e : Key K⦄ where
  -- `find`, and the value there.
  unfoldable pub lookup : K → Dict K V → Option V
  lookup k [] = none
  lookup k ((j, v) ∷ d) = if e.same k j then some v else lookup k d

  -- `insert` of a multimap: behind the entries of its key. A map does the same where it has no such key.
  unfoldable pub insert : K → V → Dict K V → Dict K V
  insert k v [] = (k, v) ∷ []
  insert k v ((j, w) ∷ d) = if e.less k j then (k, v) ∷ (j, w) ∷ d else (j, w) ∷ insert k v d

  -- `erase` of the entry that `find` gives, if it gives one.
  unfoldable pub erase : K → Dict K V → Dict K V
  erase k [] = []
  erase k ((j, v) ∷ d) = if e.same k j then d else (j, v) ∷ erase k d

  -- The values of `equal_range`.
  unfoldable pub values : K → Dict K V → List V
  values k [] = []
  values k ((j, v) ∷ d) = let rest = values k d in if e.same k j then v ∷ rest else rest

-- The values in the order of the keys.
abbrev pub all_values {ℓ κ} : {K : Type ℓ} {V : Type κ} → Dict K V → List V
all_values [] = []
all_values ((_, v) ∷ d) = v ∷ all_values d

-- The order of `std::string`: byte by byte.
unfoldable pub str_less : Bytes → Bytes → Bool
str_less [] [] = false
str_less [] (b ∷ bs) = true
str_less (a ∷ as') [] = false
str_less (a ∷ as') (b ∷ bs) = if a == b then str_less as' bs else ltb a b

pub str_eq_iff : (a b : Bytes) → (str_eq a b ≡ true) ↔ (a ≡ b)
unfolding str_eq
str_eq_iff [] [] = (λ h. refl, λ h. refl)
str_eq_iff [] (b ∷ bs) = (λ h. cc, λ h. cc)
str_eq_iff (a ∷ as') [] = (λ h. cc, λ h. cc)
str_eq_iff (a ∷ as') (b ∷ bs) = ground (arith, str_eq_iff as' bs)

pub str_less_irrefl : (a : Bytes) → str_less a a ≡ false
unfolding str_less
str_less_irrefl [] = refl
str_less_irrefl (a ∷ as') = ground (arith, str_less_irrefl as')

pub str_less_trans :
    (a b c : Bytes) → str_less a b ≡ true → str_less b c ≡ true → str_less a c ≡ true
unfolding str_less
str_less_trans [] [] c h k = cc
str_less_trans [] (b ∷ bs) [] h k = cc
str_less_trans [] (b ∷ bs) (c ∷ cs) h k = refl
str_less_trans (a ∷ as') [] c h k = cc
str_less_trans (a ∷ as') (b ∷ bs) [] h k = cc
str_less_trans (a ∷ as') (b ∷ bs) (c ∷ cs) h k = ground (arith, str_less_trans as' bs cs)

pub int_eq_iff : (a b : ℤ) → ((a ==ℤ b) ≡ true) ↔ (a ≡ b)
int_eq_iff a b = ground arith

pub int_less_irrefl : (a : ℤ) → (a <ℤ a) ≡ false
int_less_irrefl a = ground arith

pub int_less_trans : (a b c : ℤ) → (a <ℤ b) ≡ true → (b <ℤ c) ≡ true → (a <ℤ c) ≡ true
int_less_trans a b c h k = ground arith

instance abbrev pub string_key : Key Bytes
string_key = record {
  same = str_eq;
  less = str_less;
  same_iff = str_eq_iff;
  less_irrefl = str_less_irrefl;
  less_trans = str_less_trans;
}

instance abbrev pub int_key : Key ℤ
int_key = record {
  same = ◌==ℤ◌;
  less = ◌<ℤ◌;
  same_iff = int_eq_iff;
  less_irrefl = int_less_irrefl;
  less_trans = int_less_trans;
}
