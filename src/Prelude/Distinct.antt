-- ===== src/Prelude/Distinct.antt =====
-- Keys listed once: for dictionaries (a JavaScript Map or object never repeats a key).
use Prim.Native.String.{String}
use mathlib.Core.Path.{◌≡◌, refl}
use mathlib.Core.Bool.{Bool, false}
use mathlib.Core.List.{List, [], ◌∷◌, ◌++◌}
use mathlib.Core.Option.{none}
use native.Mathlib.Omega.{arith}
use text.Mathlib.Text.{◌==◌ as str_eq}
use text.Mathlib.TextEquality.{eq_iff}
use wickhunter_hub.Prelude.Lists.{filter}
use wickhunter_hub.Prelude.Dictionary.{Dict, lookup, insert, erase}

abbrev pub Absent : String → List String → Type 0
Absent k [] = Unit
Absent k (x ∷ xs) = (str_eq x k ≡ false) × Absent k xs

-- No text is listed twice.
abbrev pub Unique : List String → Type 0
Unique [] = Unit
Unique (x ∷ xs) = Absent x xs × Unique xs

pub Absent-snoc :
    (x k : String) (xs : List String) → str_eq k x ≡ false → Absent x xs → Absent x (xs ++ k ∷ [])
Absent-snoc x k [] e h = (e, tt)
Absent-snoc x k (y ∷ xs) e h = (h.0, Absent-snoc x k xs e h.1)

pub str_eq_sym : (x k : String) → str_eq x k ≡ false → str_eq k x ≡ false
str_eq_sym x k h = ground (arith, eq_iff x k, eq_iff k x)

pub Unique-snoc : (k : String) (xs : List String) → Absent k xs → Unique xs → Unique (xs ++ k ∷ [])
Unique-snoc k [] a u = (tt, tt)
Unique-snoc k (x ∷ xs) a u = (Absent-snoc x k xs (str_eq_sym x k a.0) u.0, Unique-snoc k xs a.1 u.1)

module _ {ℓ} {V : Type ℓ} where
  abbrev pub keys : Dict V → List String
  keys [] = []
  keys ((k, v) ∷ d) = k ∷ keys d

  pub lookup-Absent : (k : String) (d : Dict V) → Absent k (keys d) → lookup k d ≡ none
  lookup-Absent k [] h = refl
  lookup-Absent k ((j, v) ∷ d) h = ground (arith, lookup-Absent k d h.1)

  pub Absent-insert :
      (k j : String) (v : V) (d : Dict V)
      → str_eq j k ≡ false
      → Absent k (keys d)
      → Absent k (keys (insert j v d))
  Absent-insert k j v [] e h = (e, tt)
  Absent-insert k j v ((i, w) ∷ d) e h = ground (arith, Absent-insert k j v d e h.1)

  pub Unique-insert :
      (k : String) (v : V) (d : Dict V) → Unique (keys d) → Unique (keys (insert k v d))
  Unique-insert k v [] u = (tt, tt)
  Unique-insert k v ((j, w) ∷ d) u =
      ground (arith, str_eq_sym j k, Absent-insert j k v d, Unique-insert k v d u.1)

  pub Absent-erase : (k j : String) (d : Dict V) → Absent k (keys d) → Absent k (keys (erase j d))
  Absent-erase k j [] h = tt
  Absent-erase k j ((i, w) ∷ d) h = ground (arith, Absent-erase k j d h.1)

  pub Unique-erase : (k : String) (d : Dict V) → Unique (keys d) → Unique (keys (erase k d))
  Unique-erase k [] u = tt
  Unique-erase k ((j, w) ∷ d) u = ground (arith, Absent-erase j k d u.0, Unique-erase k d u.1)

  pub lookup-erase_self : (k : String) (d : Dict V) → Unique (keys d) → lookup k (erase k d) ≡ none
  lookup-erase_self k [] u = refl
  lookup-erase_self k ((j, w) ∷ d) u =
      ground (arith, eq_iff j k, lookup-Absent j d u.0, lookup-erase_self k d u.1)

  -- Deleting rows by a test.
  pub Absent-filter :
      (p : String × V → Bool) (k : String) (d : Dict V)
      → Absent k (keys d)
      → Absent k (keys (filter p d))
  Absent-filter p k [] h = tt
  Absent-filter p k (e ∷ d) h = ground (arith, Absent-filter p k d h.1)

  pub Unique-filter :
      (p : String × V → Bool) (d : Dict V) → Unique (keys d) → Unique (keys (filter p d))
  Unique-filter p [] u = tt
  Unique-filter p (e ∷ d) u = ground (arith, Absent-filter p e.0 d u.0, Unique-filter p d u.1)
