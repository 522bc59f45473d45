-- ===== src/Config.antt =====
-- src/ethercat/config/model.rs: the compile-time tables that the engine reads, and their enums.
-- `&'static str` names are the lists of their bytes.
use mathlib.Core.Option
use rtic_ecmaster.Base.{
  ℕ, Bool, true, false, Option, none, some, List, [], ◌∷◌, ◌==◌, ◌&&◌, if◌then◌else◌,
}

-- `EcDirection` of src/ethercat/ecrt.rs.
pub data EcDirection : Type 0 where
  output input : EcDirection

pub data HalType : Type 0 where
  bit u32 s32 : HalType

pub record PinCfg : Type 0 where
  pub name : List ℕ
  pub byte_offset : ℕ
  pub bit_pos : ℕ
  pub bit_len : ℕ
  pub hal_type : HalType
  pub dir : EcDirection

pub record FmmuCfg : Type 0 where
  pub logical_start : ℕ
  pub size : ℕ
  pub phys_start : ℕ
  pub dir : EcDirection

pub record DcCfg : Type 0 where
  pub assign_activate : ℕ
  pub sync0_cycle_ns : ℕ
  pub sync0_shift_ns : ℕ
  pub sync1_cycle_ns : ℕ

-- `StreamField`
pub record StreamField : Type 0 where
  pub sample_off : ℕ
  pub image_off : ℕ
  pub len : ℕ

-- `EcPdoEntryInfo` of src/ethercat/ecrt.rs.
pub record EcPdoEntryInfo : Type 0 where
  pub index : ℕ
  pub subindex : ℕ
  pub bit_length : ℕ

pub record PdoCfg : Type 0 where
  pub index : ℕ
  pub entries : List EcPdoEntryInfo

pub record SmCfg : Type 0 where
  pub index : ℕ
  pub phys_start : ℕ
  pub control : ℕ
  pub dir : EcDirection
  pub size : ℕ
  pub pdos : List PdoCfg

pub record SdoInit : Type 0 where
  pub index : ℕ
  pub subindex : ℕ
  pub payload : List ℕ

-- `SlaveCfg`
pub record SlaveCfg : Type 0 where
  pub position : ℕ
  pub vendor_id : ℕ
  pub product_code : ℕ
  pub sms : List SmCfg
  pub fmmus : List FmmuCfg
  pub dc : Option DcCfg
  pub sdo_init : List SdoInit
  pub out_size : ℕ
  pub in_size : ℕ

-- `BusCfg`
pub record BusCfg : Type 0 where
  pub cycle_ns : ℕ
  pub ref_clock_slave : ℕ
  pub slaves : List SlaveCfg
  pub pins : List PinCfg
  pub image_size : ℕ

-- `is_output` of src/hal/pin.rs.
unfoldable pub is_output : PinCfg → Bool
is_output p = elim (p.dir) [ output ↦ true | input ↦ false ]

-- Equality of two names.
abbrev pub name_eq : List ℕ → List ℕ → Bool
name_eq [] [] = true
name_eq [] (y ∷ ys) = false
name_eq (x ∷ xs) [] = false
name_eq (x ∷ xs) (y ∷ ys) = (x == y) && name_eq xs ys

-- `BusCfg::pin`, the search for a name.
unfoldable pub pin : List PinCfg → List ℕ → Option PinCfg
pin [] name = none
pin (p ∷ ps) name = let rest = pin ps name in if name_eq p.name name then some p else rest

-- `name.strip_suffix(suffix)`
unfoldable pub strip_suffix : List ℕ → List ℕ → Option (List ℕ)
strip_suffix suffix [] = if name_eq suffix [] then some [] else none
strip_suffix suffix (c ∷ cs) =
    let rest = Option.map (◌∷◌ c) (strip_suffix suffix cs) in
    if name_eq suffix (c ∷ cs) then some [] else rest
