-- ===== src/Master/Bring/Ends.antt =====
-- The bring-up of the whole bus ends.
use rtic_ecmaster.Base.{
  ℕ, zero, suc, ◌+◌, ◌*◌, ◌≤◌, ◌<◌, ◌≡◌, inl, inr, refl, ap, arith, Bool, true, false, Option, none,
  some, Option-cases, List, [], ◌∷◌, length, get_elem?, Outcome, ok, err, panic,
}
use rtic_ecmaster.Config.{BusCfg, SlaveCfg}
use rtic_ecmaster.Device.{Enet}
use rtic_ecmaster.Exchange.{Bus}
use rtic_ecmaster.Exchange.Runs.{Good}
use rtic_ecmaster.Slave.{SlaveInfo, mailbox}
use rtic_ecmaster.SlaveConfig.{FsmSlaveConfig}
use rtic_ecmaster.SlaveConfig
use rtic_ecmaster.SlaveConfig.Measure.{mappings}
use rtic_ecmaster.SlaveConfig.Measure
use rtic_ecmaster.SlaveConfig.Ends as SlaveEnds
use rtic_ecmaster.Master.Bring.{
  ConfigSeq, find_slave, dc_ref_of, start, advance, step_fsm, begin, step_on, step, push_ready,
  cyclic_slave,
}

-- The calls that the bring-up of a slave may take, and those of a list of slaves.
abbrev pub slave_calls : SlaveCfg → ℕ
slave_calls slave = (15 + length slave.fmmus + 2 * length slave.sms + mappings slave.sms) * 78371418

abbrev pub all_calls : List SlaveCfg → ℕ
all_calls [] = 0
all_calls (slave ∷ slaves) = slave_calls slave + 1 + all_calls slaves

-- The calls of the slaves behind the one at `i`.
abbrev pub calls_behind : List SlaveCfg → ℕ → ℕ
calls_behind [] i = 0
calls_behind (slave ∷ slaves) zero = all_calls slaves
calls_behind (slave ∷ slaves) (suc i) = calls_behind slaves i

abbrev pub FsmValid : Option FsmSlaveConfig → Type 0
FsmValid none = Unit {0}
FsmValid (some f) = Measure.IsValid f

abbrev pub fsm_left : Option SlaveCfg → Option FsmSlaveConfig → ℕ
fsm_left none f = 0
fsm_left (some slave) none = slave_calls slave + 1
fsm_left (some slave) (some f) = Measure.measure f + 1

abbrev pub IsValid : ConfigSeq → Type 0
IsValid seq = FsmValid seq.fsm

abbrev pub measure : BusCfg → ConfigSeq → ℕ
measure cfg seq = calls_behind cfg.slaves seq.idx + fsm_left (get_elem? cfg.slaves seq.idx) seq.fsm

behind-next :
    (slaves : List SlaveCfg) (i : ℕ) (slave : SlaveCfg)
    → get_elem? slaves i ≡ some slave
    → calls_behind slaves (i + 1) + fsm_left (get_elem? slaves (i + 1)) none ≤ calls_behind slaves i
behind-next [] i slave e = absurd cc
behind-next (s ∷ []) zero slave e = omega arith
behind-next (s ∷ t ∷ slaves) zero slave e = omega arith
behind-next (s ∷ slaves) (suc i) slave e =
    let plus : suc i + 1 ≡ suc (i + 1) = omega arith in rw plus (behind-next slaves i slave e)

advance-Good :
    (cfg : BusCfg) (seq : ConfigSeq) (slave : SlaveCfg) (f : FsmSlaveConfig) (o : Outcome Bool)
    (before : ℕ)
    → get_elem? cfg.slaves seq.idx ≡ some slave
    → Good Measure.IsValid Measure.measure before f o
    → let r = advance cfg seq f o in
      Good IsValid (measure cfg) (calls_behind cfg.slaves seq.idx + before + 1) r.0 r.1
unfolding advance
advance-Good cfg seq slave f (ok false) before here good =
    let left : fsm_left (get_elem? cfg.slaves seq.idx) (some f) ≡ Measure.measure f + 1 =
      ap (λ s. fsm_left s (some f)) here in
    (λ e. cc, λ e. ((good.1 refl).0, omega (arith, left, (good.1 refl).1)))
advance-Good cfg seq slave f (ok true) before here good =
    (λ e. cc, λ e. (tt, omega (arith, behind-next cfg.slaves seq.idx slave here)))
advance-Good cfg seq slave f (err er) before here good = (λ e. cc, λ e. cc)
advance-Good cfg seq slave f panic before here good = absurd (good.0 refl)

module _ {S : Type 0} (nic : Enet S) (cfg : BusCfg) where
  step_fsm-Good :
      (seq : ConfigSeq) (slave : SlaveCfg) (f : FsmSlaveConfig) (bus : Bus S)
      → get_elem? cfg.slaves seq.idx ≡ some slave
      → Measure.IsValid f
      → let r = step_fsm nic cfg seq f bus in
        Good IsValid (measure cfg) (calls_behind cfg.slaves seq.idx + Measure.measure f + 1) r.0 r.2
  unfolding step_fsm
  step_fsm-Good seq slave f bus here v =
      advance-Good cfg seq slave (SlaveConfig.step nic f bus).0 (SlaveConfig.step nic f bus).2
        (Measure.measure f) here (SlaveEnds.step-Good nic f bus v)

  Good-weaken :
      (a b : ℕ) (seq : ConfigSeq) (o : Outcome Bool)
      → a ≤ b
      → Good IsValid (measure cfg) a seq o
      → Good IsValid (measure cfg) b seq o
  Good-weaken a b seq o le good = (good.0, λ e. ((good.1 e).0, omega (arith, le, (good.1 e).1)))

  step_on-Good :
      (slaves : List SlaveInfo) (seq : ConfigSeq) (slave : SlaveCfg) (f : Option FsmSlaveConfig)
      (bus : Bus S)
      → get_elem? cfg.slaves seq.idx ≡ some slave
      → FsmValid f
      → let r = step_on nic cfg slaves seq slave f bus in
        Good IsValid
          (measure cfg)
          (calls_behind cfg.slaves seq.idx + fsm_left (some slave) f)
          r.0
          r.2
  unfolding start
  step_on-Good slaves seq slave (some f) bus here v =
      Good-weaken _ _ (step_fsm nic cfg seq f bus).0 (step_fsm nic cfg seq f bus).2 (omega arith)
        (step_fsm-Good seq slave f bus here v)
  step_on-Good slaves seq slave none bus here v =
      elim (Option-cases (find_slave slaves slave.position)) [
        | inl e ↦ rw (e, begin) (λ p. cc, λ p. cc)
        | inr (info, e) ↦
            let f = start cfg slaves slave info in
            let seq' = record seq { ready = push_ready seq.ready (cyclic_slave info) } in
            let (valid, few) = start-Valid slave info in
            rw (e, begin)
              (Good-weaken _ _ (step_fsm nic cfg seq' f bus).0 (step_fsm nic cfg seq' f bus).2
                (omega (arith, few)) (step_fsm-Good seq' slave f bus here valid))
      ]
    where
      start-Valid :
          (slave : SlaveCfg) (info : SlaveInfo)
          → Measure.IsValid (start cfg slaves slave info)
            × (Measure.measure (start cfg slaves slave info) < slave_calls slave)
      start-Valid slave info =
          SlaveEnds.new-IsValid info.station_addr (mailbox info) slave
            (dc_ref_of (find_slave slaves cfg.ref_clock_slave) info)

  pub step-Good :
      (slaves : List SlaveInfo) (seq : ConfigSeq) (bus : Bus S)
      → IsValid seq
      → let r = step nic cfg slaves seq bus in Good IsValid (measure cfg) (measure cfg seq) r.0 r.2
  unfolding step
  step-Good slaves seq bus v = elim (Option-cases (get_elem? cfg.slaves seq.idx)) [
    | inl e ↦ rw (e, step) (λ p. cc, λ p. cc)
    | inr (slave, e) ↦
        let left : fsm_left (get_elem? cfg.slaves seq.idx) seq.fsm ≡ fsm_left (some slave) seq.fsm =
          ap (λ s. fsm_left s seq.fsm) e in
        let good = step_on-Good slaves seq slave seq.fsm bus e v in
        rw (e, step) (good.0, λ p. ((good.1 p).0, omega (arith, left, (good.1 p).1)))
  ]
