-- ===== src/Base/Lists.antt =====
-- Byte buffers and slices as lists measured by native numbers, under the library's names.
use Prim.Native.Nat.{ℕ, zero, suc, ◌+◌, ◌-◌, ◌<◌, ◌≤◌, min}
use mathlib.Core.Path.{◌≡◌, refl, ap, ◌∙◌}
use mathlib.Core.Logic.{◌≢◌, ◌⊎◌, inl, inr}
use mathlib.Core.Bool.{Bool, true, ◌&&◌}
use mathlib.Core.List.{List, [], ◌∷◌, ◌++◌}
use mathlib.Core.Option.{Option, none, some}
use native.Mathlib.Omega.{arith}
use rtic_ecmaster.Base.Tests.{leb, if◌then◌else◌}

module _ {ℓ} {A : Type ℓ} where
  abbrev pub length : List A → ℕ
  length [] = 0
  length (x ∷ xs) = suc (length xs)

  abbrev pub get_elem? : List A → ℕ → Option A
  get_elem? [] i = none
  get_elem? (x ∷ xs) zero = some x
  get_elem? (x ∷ xs) (suc i) = get_elem? xs i

  abbrev pub get_or : List A → ℕ → A → A
  get_or [] i d = d
  get_or (x ∷ xs) zero d = x
  get_or (x ∷ xs) (suc i) d = get_or xs i d

  -- A write out of range changes nothing.
  abbrev pub set : List A → ℕ → A → List A
  set [] i v = []
  set (x ∷ xs) zero v = v ∷ xs
  set (x ∷ xs) (suc i) v = x ∷ set xs i v

  abbrev pub take : ℕ → List A → List A
  take zero xs = []
  take (suc n) [] = []
  take (suc n) (x ∷ xs) = x ∷ take n xs

  abbrev pub drop : ℕ → List A → List A
  drop zero xs = xs
  drop (suc n) [] = []
  drop (suc n) (x ∷ xs) = drop n xs

  abbrev pub replicate : ℕ → A → List A
  replicate zero a = []
  replicate (suc n) a = a ∷ replicate n a

  abbrev pub all : (A → Bool) → List A → Bool
  all p [] = true
  all p (x ∷ xs) = p x && all p xs

  abbrev pub All {κ} : (A → Type κ) → List A → Type κ
  All P [] = Unit
  All P (x ∷ xs) = P x × All P xs

module _ {ℓ} {A : Type ℓ} where
  pub length-append : (xs ys : List A) → length (xs ++ ys) ≡ length xs + length ys
  length-append [] ys = omega arith
  length-append (x ∷ xs) ys = omega (arith, length-append xs ys)

  pub length-set : (xs : List A) (i : ℕ) (v : A) → length (set xs i v) ≡ length xs
  length-set [] i v = refl
  length-set (x ∷ xs) zero v = refl
  length-set (x ∷ xs) (suc i) v = ap suc (length-set xs i v)

  pub length-take : (n : ℕ) (xs : List A) → length (take n xs) ≡ min n (length xs)
  length-take zero xs = omega arith
  length-take (suc n) [] = omega arith
  length-take (suc n) (x ∷ xs) = omega (arith, length-take n xs)

  pub length-drop : (n : ℕ) (xs : List A) → length (drop n xs) ≡ length xs - n
  length-drop zero xs = omega arith
  length-drop (suc n) [] = omega arith
  length-drop (suc n) (x ∷ xs) = omega (arith, length-drop n xs)

  pub length-replicate : (n : ℕ) (a : A) → length (replicate n a) ≡ n
  length-replicate zero a = refl
  length-replicate (suc n) a = ap suc (length-replicate n a)

  pub take-append-drop : (n : ℕ) (xs : List A) → take n xs ++ drop n xs ≡ xs
  take-append-drop zero xs = refl
  take-append-drop (suc n) [] = refl
  take-append-drop (suc n) (x ∷ xs) = ap (◌∷◌ x) (take-append-drop n xs)

  pub take-append : (xs ys : List A) → take (length xs) (xs ++ ys) ≡ xs
  take-append [] ys = refl
  take-append (x ∷ xs) ys = ap (◌∷◌ x) (take-append xs ys)

  pub drop-append : (xs ys : List A) → drop (length xs) (xs ++ ys) ≡ ys
  drop-append [] ys = refl
  drop-append (x ∷ xs) ys = drop-append xs ys

  pub drop-append_add : (xs ys : List A) (n : ℕ) → drop (length xs + n) (xs ++ ys) ≡ drop n ys
  drop-append_add [] ys n = ap (λ k. drop k ys) (omega arith)
  drop-append_add (x ∷ xs) ys n =
      ap (λ k. drop k (x ∷ (xs ++ ys))) suc_out ∙ drop-append_add xs ys n
    where
      suc_out : suc (length xs) + n ≡ suc (length xs + n)
      suc_out = omega arith

  pub get_elem?-set_self :
      (xs : List A) (i : ℕ) (v : A) → i < length xs → get_elem? (set xs i v) i ≡ some v
  get_elem?-set_self [] i v h = absurd (omega arith)
  get_elem?-set_self (x ∷ xs) zero v h = refl
  get_elem?-set_self (x ∷ xs) (suc i) v h = get_elem?-set_self xs i v (omega arith)

  pub get_elem?-set_ne :
      (xs : List A) (i j : ℕ) (v : A) → i ≢ j → get_elem? (set xs i v) j ≡ get_elem? xs j
  get_elem?-set_ne [] i j v h = refl
  get_elem?-set_ne (x ∷ xs) zero zero v h = absurd (h refl)
  get_elem?-set_ne (x ∷ xs) zero (suc j) v h = refl
  get_elem?-set_ne (x ∷ xs) (suc i) zero v h = refl
  get_elem?-set_ne (x ∷ xs) (suc i) (suc j) v h = get_elem?-set_ne xs i j v (λ e. h (ap suc e))

  pub get_or-set_self :
      (xs : List A) (i : ℕ) (v d : A) → i < length xs → get_or (set xs i v) i d ≡ v
  get_or-set_self [] i v d h = absurd (omega arith)
  get_or-set_self (x ∷ xs) zero v d h = refl
  get_or-set_self (x ∷ xs) (suc i) v d h = get_or-set_self xs i v d (omega arith)

  pub get_or-set_ne :
      (xs : List A) (i j : ℕ) (v d : A) → i ≢ j → get_or (set xs i v) j d ≡ get_or xs j d
  get_or-set_ne [] i j v d h = refl
  get_or-set_ne (x ∷ xs) zero zero v d h = absurd (h refl)
  get_or-set_ne (x ∷ xs) zero (suc j) v d h = refl
  get_or-set_ne (x ∷ xs) (suc i) zero v d h = refl
  get_or-set_ne (x ∷ xs) (suc i) (suc j) v d h = get_or-set_ne xs i j v d (λ e. h (ap suc e))

-- `&xs[from..to]`, which the source takes only where `from <= to <= xs.len()`.
abbrev pub slice {ℓ} : {A : Type ℓ} → ℕ → ℕ → List A → List A
slice from to xs = take (to - from) (drop from xs)

-- `dst[off..off + src.len()].copy_from_slice(src)`; `none` is the panic of a range past the end.
unfoldable pub copy_at {ℓ} : {A : Type ℓ} → ℕ → List A → List A → Option (List A)
copy_at off src dst =
    if leb (off + length src) (length dst)
    then some (take off dst ++ (src ++ drop (off + length src) dst))
    else none

module _ {ℓ} {A : Type ℓ} where
  pub get_or-append_add :
      (xs ys : List A) (i k : ℕ) (d : A) → i ≡ length xs + k → get_or (xs ++ ys) i d ≡ get_or ys k d
  get_or-append_add [] ys i k d e = let e' : i ≡ k = omega arith in ap (λ j. get_or ys j d) e'
  get_or-append_add (x ∷ xs) ys zero k d e = absurd (omega arith)
  get_or-append_add (x ∷ xs) ys (suc i) k d e = get_or-append_add xs ys i k d (omega arith)

  pub get_elem?-append_add :
      (xs ys : List A) (i k : ℕ) → i ≡ length xs + k → get_elem? (xs ++ ys) i ≡ get_elem? ys k
  get_elem?-append_add [] ys i k e = let e' : i ≡ k = omega arith in ap (λ j. get_elem? ys j) e'
  get_elem?-append_add (x ∷ xs) ys zero k e = absurd (omega arith)
  get_elem?-append_add (x ∷ xs) ys (suc i) k e = get_elem?-append_add xs ys i k (omega arith)

-- Bytes written over a buffer from `k` on; the source checks that they end inside it.
module _ {ℓ} {A : Type ℓ} where
  abbrev pub overwrite : List A → ℕ → List A → List A
  overwrite [] k src = []
  overwrite (x ∷ xs) zero [] = x ∷ xs
  overwrite (x ∷ xs) zero (s ∷ src) = s ∷ overwrite xs zero src
  overwrite (x ∷ xs) (suc k) src = x ∷ overwrite xs k src

  pub length-overwrite :
      (xs : List A) (k : ℕ) (src : List A) → length (overwrite xs k src) ≡ length xs
  length-overwrite [] k src = refl
  length-overwrite (x ∷ xs) zero [] = refl
  length-overwrite (x ∷ xs) zero (s ∷ src) = ap suc (length-overwrite xs zero src)
  length-overwrite (x ∷ xs) (suc k) src = ap suc (length-overwrite xs k src)

  pub get_or-overwrite_in :
      (xs : List A) (k : ℕ) (src : List A) (i j : ℕ) (d : A)
      → i ≡ k + j
      → j < length src
      → i < length xs
      → get_or (overwrite xs k src) i d ≡ get_or src j d
  get_or-overwrite_in [] k src i j d e h l = absurd (omega arith)
  get_or-overwrite_in (x ∷ xs) zero [] i j d e h l = absurd (omega arith)
  get_or-overwrite_in (x ∷ xs) zero (s ∷ src) zero zero d e h l = refl
  get_or-overwrite_in (x ∷ xs) zero (s ∷ src) zero (suc j) d e h l = absurd (omega arith)
  get_or-overwrite_in (x ∷ xs) zero (s ∷ src) (suc i) zero d e h l = absurd (omega arith)
  get_or-overwrite_in (x ∷ xs) zero (s ∷ src) (suc i) (suc j) d e h l =
      get_or-overwrite_in xs zero src i j d (omega arith) (omega arith) (omega arith)
  get_or-overwrite_in (x ∷ xs) (suc k) src zero j d e h l = absurd (omega arith)
  get_or-overwrite_in (x ∷ xs) (suc k) src (suc i) j d e h l =
      get_or-overwrite_in xs k src i j d (omega arith) h (omega arith)

  pub get_or-overwrite_out :
      (xs : List A) (k : ℕ) (src : List A) (i : ℕ) (d : A)
      → (i < k) ⊎ (k + length src ≤ i)
      → get_or (overwrite xs k src) i d ≡ get_or xs i d
  get_or-overwrite_out [] k src i d h = refl
  get_or-overwrite_out (x ∷ xs) zero [] i d h = refl
  get_or-overwrite_out (x ∷ xs) zero (s ∷ src) zero d h = absurd (omega arith)
  get_or-overwrite_out (x ∷ xs) zero (s ∷ src) (suc i) d h =
      get_or-overwrite_out xs zero src i d (inr (omega arith))
  get_or-overwrite_out (x ∷ xs) (suc k) src zero d h = refl
  get_or-overwrite_out (x ∷ xs) (suc k) src (suc i) d (inl h) =
      get_or-overwrite_out xs k src i d (inl (omega arith))
  get_or-overwrite_out (x ∷ xs) (suc k) src (suc i) d (inr h) =
      get_or-overwrite_out xs k src i d (inr (omega arith))

module _ {ℓ} {A : Type ℓ} where
  pub get_or-take :
      (n : ℕ) (xs : List A) (j : ℕ) (d : A) → j < n → get_or (take n xs) j d ≡ get_or xs j d
  get_or-take zero xs j d h = absurd (omega arith)
  get_or-take (suc n) [] j d h = refl
  get_or-take (suc n) (x ∷ xs) zero d h = refl
  get_or-take (suc n) (x ∷ xs) (suc j) d h = get_or-take n xs j d (omega arith)

  pub get_or-drop :
      (k : ℕ) (xs : List A) (j i : ℕ) (d : A) → i ≡ k + j → get_or (drop k xs) j d ≡ get_or xs i d
  get_or-drop zero xs j i d e = let e' : j ≡ i = omega arith in ap (λ n. get_or xs n d) e'
  get_or-drop (suc k) [] j i d e = refl
  get_or-drop (suc k) (x ∷ xs) j zero d e = absurd (omega arith)
  get_or-drop (suc k) (x ∷ xs) j (suc i) d e = get_or-drop k xs j i d (omega arith)

module _ {ℓ} {A : Type ℓ} where
  pub take_all : (n : ℕ) (xs : List A) → length xs ≤ n → take n xs ≡ xs
  take_all zero [] h = refl
  take_all zero (x ∷ xs) h = absurd (omega arith)
  take_all (suc n) [] h = refl
  take_all (suc n) (x ∷ xs) h = ap (◌∷◌ x) (take_all n xs (omega arith))

  pub take_front : (n : ℕ) (xs ys : List A) → n ≤ length xs → take n (xs ++ ys) ≡ take n xs
  take_front zero xs ys h = refl
  take_front (suc n) [] ys h = absurd (omega arith)
  take_front (suc n) (x ∷ xs) ys h = ap (◌∷◌ x) (take_front n xs ys (omega arith))
