-- ===== src/SlaveConfig/Parts.antt =====
-- The parts of the bring-up of a slave, between two calls.
use mathlib.Core.Path.{subst}
use rtic_ecmaster.Base.{
  ℕ, ◌≤◌, ◌<◌, ◌≡◌, ◌≢◌, refl, sym, arith, Bool, true, false, Option, none, some, List, [], ◌∷◌,
  Outcome, ok, err, panic,
}
use rtic_ecmaster.Change.{FsmChange}
use rtic_ecmaster.Change.Ends as ChangeEnds
use rtic_ecmaster.Coe.Seq.{CoeSeq, push}
use rtic_ecmaster.Coe.Seq.Ends as SeqEnds
use rtic_ecmaster.Config.{SdoInit, DcCfg}
use rtic_ecmaster.Dc.{FsmDc}
use rtic_ecmaster.Dc.Ends as DcEnds
use rtic_ecmaster.Exchange.{Exchange}
use rtic_ecmaster.Exchange.Runs.{Good}
use rtic_ecmaster.SlaveConfig.{FsmSlaveConfig, new, when, change_of, dc_of, seq_of, kept, push_all}
use rtic_ecmaster.Coe.Seq.Fresh.{Fresh, Fresh-Valid}
use rtic_ecmaster.Coe.Seq.Fresh.{push-Fresh}
use rtic_ecmaster.SlaveConfig.Measure.{
  change_calls, seq_calls, dc_calls, part_left, PartValid, measure, IsValid,
}

-- A machine in which only the parts have changed.
abbrev pub with_parts :
    FsmSlaveConfig → Exchange → Option FsmChange → Option CoeSeq → Option FsmDc → FsmSlaveConfig
with_parts f x c s d = record f { link = x; change = c; seq = s; dc = d }

-- What a call of a part may give.
pub record Part (f f' : FsmSlaveConfig) (o : Outcome Bool) : Type 0 where
  pub no_panic : o ≢ panic
  pub waits : o ≡ ok false → IsValid f' × (measure f' < measure f)
  pub ends :
      o ≡ ok true
      → (x : Exchange) × (c : Option FsmChange) × (s : Option CoeSeq) × (d : Option FsmDc) × (f'
          ≡ with_parts f x c s d)
        × IsValid f'

-- What follows a part, and must go on with fewer parts ahead.
abbrev pub Follows : FsmSlaveConfig → (FsmSlaveConfig → FsmSlaveConfig × Outcome Bool) → Type 0
Follows f follow =
    (x : Exchange) (c : Option FsmChange) (s : Option CoeSeq) (d : Option FsmDc)
    → IsValid (with_parts f x c s d)
    → Good IsValid measure (measure f) (follow (with_parts f x c s d)).0
        (follow (with_parts f x c s d)).1

pub when-Good :
    {B : Type 0} (f : FsmSlaveConfig) (r : FsmSlaveConfig × B × Outcome Bool)
    (follow : FsmSlaveConfig → FsmSlaveConfig × Outcome Bool)
    → Part f r.0 r.2
    → Follows f follow
    → Good IsValid measure (measure f) (when r follow).0 (when r follow).2
when-Good f (f', bus, ok true) follow part next =
    let (x, c, s, d, same, v) = part.ends refl in
    subst (λ k. Good IsValid measure (measure f) (follow k).0 (follow k).1) (sym same)
      (next x c s d (subst IsValid same v))
when-Good f (f', bus, ok false) follow part next = (λ e. cc, λ e. part.waits refl)
when-Good f (f', bus, err e) follow part next = (λ e. cc, λ e. cc)
when-Good f (f', bus, panic) follow part next = absurd (part.no_panic refl)

pub kept-Valid :
    {A : Type 0} (V : A → Type 0) (measure : A → ℕ) (calls before : ℕ) (x : A) (o : Outcome Bool)
    → Good V measure before x o
    → before < calls
    → o ≡ ok false
    → PartValid V measure calls (kept x o) × (part_left measure calls (kept x o) < before)
kept-Valid V measure calls before x (ok false) good few e =
    ((((good.1 refl).0, omega (arith, (good.1 refl).1))), (good.1 refl).1)
kept-Valid V measure calls before x (ok true) good few e = absurd cc
kept-Valid V measure calls before x (err er) good few e = absurd cc
kept-Valid V measure calls before x panic good few e = absurd cc

pub kept-none : {A : Type 0} (x : A) (o : Outcome Bool) → o ≡ ok true → kept x o ≡ none
kept-none x (ok true) e = refl
kept-none x (ok false) e = absurd cc
kept-none x (err er) e = absurd cc
kept-none x panic e = absurd cc

-- A part that is about to be stepped.
pub change_of-Valid :
    (f : FsmSlaveConfig) (target : ℕ) (c : Option FsmChange)
    → PartValid ChangeEnds.IsValid ChangeEnds.measure change_calls c
    → ChangeEnds.IsValid (change_of f target c)
      × (ChangeEnds.measure (change_of f target c) < change_calls)
      × (ChangeEnds.measure (change_of f target c) ≤ part_left ChangeEnds.measure change_calls c)
change_of-Valid f target none v =
    let (valid, few) = ChangeEnds.new-IsValid f.station target in (valid, few, omega (arith, few))
change_of-Valid f target (some c) v = (v.0, v.1, omega arith)

pub dc_of-Valid :
    (f : FsmSlaveConfig) (cfg : DcCfg) (d : Option FsmDc)
    → PartValid DcEnds.IsValid DcEnds.measure dc_calls d
    → DcEnds.IsValid (dc_of f cfg d)
      × (DcEnds.measure (dc_of f cfg d) < dc_calls)
      × (DcEnds.measure (dc_of f cfg d) ≤ part_left DcEnds.measure dc_calls d)
dc_of-Valid f cfg none v =
    let (valid, few) = DcEnds.new-IsValid f.station cfg f.dc_ref in
    (valid, omega (arith, few), omega (arith, few))
dc_of-Valid f cfg (some d) v = (v.0, v.1, omega arith)

pub seq_of-Valid :
    (s : Option CoeSeq) (fresh : CoeSeq)
    → Fresh fresh
    → PartValid SeqEnds.IsValid SeqEnds.measure seq_calls s
    → SeqEnds.IsValid (seq_of s fresh)
      × (SeqEnds.measure (seq_of s fresh) < seq_calls)
      × (SeqEnds.measure (seq_of s fresh) ≤ part_left SeqEnds.measure seq_calls s)
seq_of-Valid none fresh new v =
    let (valid, few) = Fresh-Valid fresh new in (valid, few, omega (arith, few))
seq_of-Valid (some s) fresh new v = (v.0, v.1, omega arith)

pub push_all-Fresh : (seq : CoeSeq) (sdos : List SdoInit) → Fresh seq → Fresh (push_all seq sdos)
push_all-Fresh seq [] v = v
push_all-Fresh seq (s ∷ sdos) v =
    push_all-Fresh (push seq s.index s.subindex s.payload) sdos
      (push-Fresh seq s.index s.subindex s.payload v)
