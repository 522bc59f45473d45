-- ===== src/Base/Copy.antt =====
-- `copy_from_slice` behind a prefix that is already written.
use Prim.Native.Nat.{ℕ, zero, suc, ◌+◌, ◌≤◌}
use mathlib.Core.Path.{◌≡◌, refl, sym, ap, ◌∙◌}
use mathlib.Core.List.{List, [], ◌∷◌, ◌++◌, append_assoc}
use mathlib.Core.Option.{some}
use native.Mathlib.Omega.{arith}
use rtic_ecmaster.Base.Tests.{le→leb}
use rtic_ecmaster.Base.Lists.{
  length, take, drop, copy_at, length-append, length-drop, take-append, drop-append,
  drop-append_add,
}

module _ {ℓ} {A : Type ℓ} where
  drop_at : (m n : ℕ) (xs : List A) → m ≡ n → drop m xs ≡ drop n xs
  drop_at m n xs e = ap (λ k. drop k xs) e

  drop_nil : (n : ℕ) → [] ≡ drop {A = A} n []
  drop_nil zero = refl
  drop_nil (suc n) = refl

  pub drop-drop : (m n : ℕ) (xs : List A) → drop m (drop n xs) ≡ drop (n + m) xs
  drop-drop m zero xs = drop_at m (0 + m) xs (omega arith)
  drop-drop zero (suc n) [] = drop_nil (suc n + 0)
  drop-drop (suc m) (suc n) [] = drop_nil (suc n + suc m)
  drop-drop m (suc n) (x ∷ xs) =
      drop-drop m n xs ∙ drop_at (suc (n + m)) (suc n + m) (x ∷ xs) (omega arith)

  pub copy_step :
      (n : ℕ) (pre src buf : List A)
      → length pre ≡ n
      → n + length src ≤ length buf
      → copy_at n src (pre ++ drop n buf) ≡ some (pre ++ (src ++ drop (n + length src) buf))
  unfolding copy_at
  copy_step n pre src buf e h =
      rw
        (
          le→leb (n + length src) (length (pre ++ drop n buf)) fits,
          ap (λ k. take k (pre ++ drop n buf)) (sym e) ∙ take-append pre (drop n buf),
          ap (λ k. drop (k + length src) (pre ++ drop n buf)) (sym e)
              ∙ drop-append_add pre (drop n buf) (length src)
              ∙ drop-drop (length src) n buf,
        )
        refl
    where
      fits : n + length src ≤ length (pre ++ drop n buf)
      fits = omega (arith, length-append pre (drop n buf), length-drop n buf)

  -- The same with the prefix grown, to go on from.
  pub copy_next :
      (n : ℕ) (pre src buf : List A)
      → length pre ≡ n
      → n + length src ≤ length buf
      → copy_at n src (pre ++ drop n buf) ≡ some ((pre ++ src) ++ drop (n + length src) buf)
  copy_next n pre src buf e h = rw (copy_step n pre src buf e h, append_assoc)

  -- A range in the middle is replaced.
  pub copy_over :
      (n : ℕ) (pre old src rest : List A)
      → length pre ≡ n
      → length old ≡ length src
      → copy_at n src (pre ++ (old ++ rest)) ≡ some (pre ++ (src ++ rest))
  copy_over n pre old src rest e same =
      ap (λ k. copy_at n src (pre ++ k)) (sym tail)
      ∙ copy_step n pre src (pre ++ (old ++ rest)) e fits
      ∙ ap (λ k. some (pre ++ (src ++ k))) tail_of_tail
    where
      tail : drop n (pre ++ (old ++ rest)) ≡ old ++ rest
      tail = ap (λ k. drop k (pre ++ (old ++ rest))) (sym e) ∙ drop-append pre (old ++ rest)

      tail_of_tail : drop (n + length src) (pre ++ (old ++ rest)) ≡ rest
      tail_of_tail =
          sym (drop-drop (length src) n (pre ++ (old ++ rest)))
          ∙ ap (drop (length src)) tail
          ∙ ap (λ k. drop k (old ++ rest)) (sym same)
          ∙ drop-append old rest

      fits : n + length src ≤ length (pre ++ (old ++ rest))
      fits = omega (arith, length-append pre (old ++ rest), length-append old rest)
