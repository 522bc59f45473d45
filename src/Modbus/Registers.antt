-- ===== src/Modbus/Registers.antt =====
-- The holding registers as a finite map.
use rtic_ecmaster.Base.{
  ℕ, ◌≡◌, ◌≢◌, refl, arith, ◌&&◌, true, false, none, some, [], ◌∷◌, ◌==◌, if◌then◌else◌,
  Option-cases, Bool-cases, inl, inr, ap,
}
use rtic_ecmaster.Modbus.{
  ModbusSlave, find, update, get_hreg, set_hreg, network_config, take_network_update,
  reg_apply_network,
}

get-update : (rs : ModbusSlave) (a v : ℕ) → find rs a ≢ none → get_hreg (update rs a v) a ≡ v
unfolding find update get_hreg
get-update [] a v h = absurd (h refl)
get-update (r ∷ rs) a v h = ground (arith, get-update rs a v)

get-update_ne : (rs : ModbusSlave) (a b v : ℕ) → a ≢ b → get_hreg (update rs a v) b ≡ get_hreg rs b
unfolding find update get_hreg
get-update_ne [] a b v h = refl
get-update_ne (r ∷ rs) a b v h = ground (arith, get-update_ne rs a b v h)

-- `set_hreg` answers whether the register exists; if so that register reads the value afterwards,
-- and every other register, and every register on the answer "no", reads what it read before.
pub set_hreg-get :
    (rs : ModbusSlave) (a b v : ℕ)
    → get_hreg (set_hreg rs a v).0 b ≡ (if (set_hreg rs a v).1 && a == b then v else get_hreg rs b)
unfolding set_hreg
set_hreg-get rs a b v = elim (Option-cases (find rs a)) [
  | inl e ↦ rw (e, set_hreg) refl
  | inr (r, e) ↦ rw (e, set_hreg) (ground (arith, get-update rs a v, get-update_ne rs a b v))
]

get_hreg-absent : (rs : ModbusSlave) (a : ℕ) → find rs a ≡ none → get_hreg rs a ≡ 0
unfolding get_hreg
get_hreg-absent rs a e = rw (e, get_hreg) refl

cleared : (rs : ModbusSlave) (a : ℕ) → get_hreg (set_hreg rs a 0).0 a ≡ 0
unfolding set_hreg
cleared rs a = elim (Option-cases (find rs a)) [
  | inl e ↦ rw (e, set_hreg) (get_hreg-absent rs a e)
  | inr (r, e) ↦ rw (e, set_hreg) (get-update rs a 0 (ground arith))
]

network_config-clear :
    (rs : ModbusSlave) → network_config (set_hreg rs reg_apply_network 0).0 ≡ network_config rs
unfolding network_config
network_config-clear rs =
    rw
      (
        other 0x0000 refl,
        other 0x0002 refl,
        other 0x0004 refl,
        other 0x0006 refl,
        other 0x0008 refl,
        other 0x000A refl,
        other 0x000C refl,
        other 0x000E refl,
        other 0x0010 refl,
        other 0x0012 refl,
        other 0x0014 refl,
        other 0x0016 refl,
      )
      refl
  where
    other :
        (a : ℕ)
        → (reg_apply_network == a) ≡ false
        → get_hreg (set_hreg rs reg_apply_network 0).0 a ≡ get_hreg rs a
    other a d = ground (arith, set_hreg-get rs reg_apply_network a 0)

-- An update is there exactly if the "apply" register is not 0; it is the configuration that the
-- registers hold, and it is taken once: right after a call there is none.
pub take_network_update_lem :
    (rs : ModbusSlave)
    → ((take_network_update rs).1
        ≡ (if get_hreg rs reg_apply_network == 0 then none else some (network_config rs)))
      × ((take_network_update (take_network_update rs).0).1 ≡ none)
unfolding take_network_update
take_network_update_lem rs = elim (Bool-cases (get_hreg rs reg_apply_network == 0)) [
  | inl e ↦ rw (e, take_network_update, e) (refl, refl)
  | inr e ↦
      let gone : (get_hreg (set_hreg rs reg_apply_network 0).0 reg_apply_network == 0) ≡ true =
        ground (arith, cleared rs reg_apply_network) in
      rw (e, take_network_update, gone) (ap some (network_config-clear rs), refl)
]
