-- ===== src/Cli/Range.antt =====
-- The numbers that src/ethercat/cli.rs reads fit 64 bits.
use rtic_ecmaster.Base.{
  if_holds, ℕ, ◌+◌, ◌*◌, ◌^◌, ◌<◌, arith, ◌&&◌, ◌||◌, Option, none, some, ltb→lt, ltb, ◌==◌, List,
  [], ◌∷◌,
}
use rtic_ecmaster.Base.Checked.{◌>>=◌}
use rtic_ecmaster.Cli.Text.{codes, is_empty, strip_prefix, trim}
use rtic_ecmaster.Cli.Numbers.{
  to_digit, digits_from, from_str_radix, strip_either, by_prefix, parse_uint, signed, parse_int,
}

abbrev pub Below : Option ℕ → ℕ → Type 0
Below none limit = Unit
Below (some n) limit = n < limit

bind-Below :
    (n : ℕ) (o : Option ℕ) (f : ℕ → Option ℕ) → ((d : ℕ) → Below (f d) n) → Below (o >>= f) n
bind-Below n none f h = tt
bind-Below n (some d) f h = h d

-- A number that is read fits 64 bits.
digits_from-Below : (r acc : ℕ) (s : List ℕ) → acc < 2 ^ 64 → Below (digits_from r acc s) (2 ^ 64)
unfolding digits_from
digits_from-Below r acc [] h = h
digits_from-Below r acc (c ∷ cs) h = bind-Below (2 ^ 64) (to_digit r c) _ λ d.
    if_holds (λ o. Below o (2 ^ 64)) (ltb (acc * r + d) (2 ^ 64))
      (λ fits. digits_from-Below r (acc * r + d) cs (ltb→lt _ _ fits)) tt

from_str_radix-Below : (r : ℕ) (s : List ℕ) → Below (from_str_radix r s) (2 ^ 64)
unfolding from_str_radix
from_str_radix-Below r [] = tt
from_str_radix-Below r (c ∷ cs) =
    if_holds (λ o. Below o (2 ^ 64)) ((c == b'+' || c == b'-') && is_empty cs) (λ _. tt)
      (if_holds (λ o. Below o (2 ^ 64)) (c == b'+') (λ _. digits_from-Below r 0 cs (omega arith))
        (digits_from-Below r 0 (c ∷ cs) (omega arith)))

by_prefix-Below : (hex bin : Option (List ℕ)) (s : List ℕ) → Below (by_prefix hex bin s) (2 ^ 64)
by_prefix-Below (some h) bin s = from_str_radix-Below 16 h
by_prefix-Below none (some b) s = from_str_radix-Below 2 b
by_prefix-Below none none s = from_str_radix-Below 10 s

pub parse_uint-Below : (s : List ℕ) → Below (parse_uint s) (2 ^ 64)
unfolding parse_uint
parse_uint-Below s =
    by_prefix-Below (strip_either (codes "0x") (codes "0X") (trim s))
      (strip_either (codes "0b") (codes "0B") (trim s)) (trim s)

signed-Below : (rest : Option (List ℕ)) (s : List ℕ) → Below (signed rest s) (2 ^ 64)
signed-Below (some r) s = bind-Below (2 ^ 64) (parse_uint r) _ (λ v. omega arith)
signed-Below none s = parse_uint-Below s

pub parse_int-Below : (s : List ℕ) → Below (parse_int s) (2 ^ 64)
unfolding parse_int
parse_int-Below s = signed-Below (strip_prefix (codes "-") (trim s)) (trim s)
