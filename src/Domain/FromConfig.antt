-- ===== src/Domain/FromConfig.antt =====
-- The working counter and the input ranges that `from_config` computes from the bus tables.
use rtic_ecmaster.Base.{
  ℕ, ◌+◌, ◌≡◌, sym, ap, ap₂, ◌∙◌, arith, List, [], ◌∷◌, ◌++◌, append_assoc, append-nil, length,
  take, u16, length-append, length-take, take_all, take_front, le→ltb, lt→ltb,
}
use native.Mathlib.Decide.{dec_lt}
use rtic_ecmaster.Config.{EcDirection, output, input, FmmuCfg, SlaveCfg, BusCfg}
use rtic_ecmaster.Domain.{max_ranges, push_range, add_mapping, scan_fmmus, scan_slaves, from_config}

-- A slave that takes outputs counts twice in an LRW, one that gives inputs once.
abbrev pub weight_of : EcDirection → ℕ
weight_of output = 2
weight_of input = 1

abbrev pub range_of : EcDirection → FmmuCfg → List (ℕ × ℕ)
range_of output fmmu = []
range_of input fmmu = (fmmu.logical_start, fmmu.size) ∷ []

abbrev pub fmmu_weight : List FmmuCfg → ℕ
fmmu_weight [] = 0
fmmu_weight (f ∷ fs) = weight_of f.dir + fmmu_weight fs

abbrev pub fmmu_inputs : List FmmuCfg → List (ℕ × ℕ)
fmmu_inputs [] = []
fmmu_inputs (f ∷ fs) = range_of f.dir f ++ fmmu_inputs fs

pub weight : List SlaveCfg → ℕ
weight [] = 0
weight (s ∷ ss) = fmmu_weight s.fmmus + weight ss

pub inputs : List SlaveCfg → List (ℕ × ℕ)
inputs [] = []
inputs (s ∷ ss) = fmmu_inputs s.fmmus ++ inputs ss

-- What the loops hold: the counter, wrapped, and the first ranges, as many as fit.
abbrev kept : ℕ → List (ℕ × ℕ) → ℕ × List (ℕ × ℕ)
kept w rs = (u16 w, take max_ranges rs)

push_range_lem :
    (rs : List (ℕ × ℕ)) (a b : ℕ)
    → push_range (take max_ranges rs) a b ≡ take max_ranges (rs ++ ((a, b) ∷ []))
push_range_lem rs a b = elim (dec_lt (length rs) max_ranges) [
  | yes p ↦
      rw (take_all max_ranges rs (omega arith), lt→ltb (length rs) max_ranges p)
        (sym (
          take_all max_ranges (rs ++ ((a, b) ∷ []))
            (omega (arith, length-append rs ((a, b) ∷ [])))))
  | no p ↦
      rw
        (le→ltb (length (take max_ranges rs)) max_ranges (omega (arith, length-take max_ranges rs)))
        (sym (take_front max_ranges rs ((a, b) ∷ []) (omega arith)))
]

add_mapping_lem :
    (t : EcDirection) (f : FmmuCfg) (w : ℕ) (rs : List (ℕ × ℕ))
    → add_mapping t f (kept w rs) ≡ kept (w + weight_of t) (rs ++ range_of t f)
add_mapping_lem output f w rs =
    ap₂ (λ n r. (n, r)) wrap (ap (take max_ranges) (sym (append-nil rs)))
  where
    wrap : u16 (u16 w + 2) ≡ u16 (w + 2)
    wrap = omega arith
add_mapping_lem input f w rs = ap₂ (λ n r. (n, r)) wrap (push_range_lem rs f.logical_start f.size)
  where
    wrap : u16 (u16 w + 1) ≡ u16 (w + 1)
    wrap = omega arith

scan_fmmus_lem :
    (fs : List FmmuCfg) (w : ℕ) (rs : List (ℕ × ℕ))
    → scan_fmmus fs (kept w rs) ≡ kept (w + fmmu_weight fs) (rs ++ fmmu_inputs fs)
unfolding scan_fmmus
scan_fmmus_lem [] w rs = ap₂ kept (omega arith) (sym (append-nil rs))
scan_fmmus_lem (f ∷ fs) w rs =
    ap (scan_fmmus fs) (add_mapping_lem f.dir f w rs)
    ∙ scan_fmmus_lem fs (w + weight_of f.dir) (rs ++ range_of f.dir f)
    ∙ ap₂ kept (omega arith) (append_assoc rs (range_of f.dir f) (fmmu_inputs fs))

scan_slaves_lem :
    (ss : List SlaveCfg) (w : ℕ) (rs : List (ℕ × ℕ))
    → scan_slaves ss (kept w rs) ≡ kept (w + weight ss) (rs ++ inputs ss)
unfolding scan_slaves weight inputs
scan_slaves_lem [] w rs = ap₂ kept (omega arith) (sym (append-nil rs))
scan_slaves_lem (s ∷ ss) w rs =
    ap (scan_slaves ss) (scan_fmmus_lem s.fmmus w rs)
    ∙ scan_slaves_lem ss (w + fmmu_weight s.fmmus) (rs ++ fmmu_inputs s.fmmus)
    ∙ ap₂ kept (omega arith) (append_assoc rs (fmmu_inputs s.fmmus) (inputs ss))

-- The expected working counter is two for each output mapping and one for each input mapping of
-- the whole bus, modulo 2^16, and the ranges copied back are the input mappings in order, the first
-- 32 of them.
pub from_config_lem :
    (bus : BusCfg)
    → ((from_config bus).expected_wkc ≡ u16 (weight bus.slaves))
      × ((from_config bus).input_ranges ≡ take max_ranges (inputs bus.slaves))
unfolding from_config
from_config_lem bus =
    let e = scan_slaves_lem bus.slaves 0 [] in
    (
      ap (λ (p : ℕ × List (ℕ × ℕ)). p.0) e ∙ ap u16 (zero_left (weight bus.slaves)),
      ap (λ (p : ℕ × List (ℕ × ℕ)). p.1) e,
    )
  where
    zero_left : (n : ℕ) → 0 + n ≡ n
    zero_left n = omega arith
