-- ===== src/SlaveConfig/Ends.antt =====
-- The bring-up of a slave ends.
use rtic_ecmaster.Base.{
  ℕ, ◌+◌, ◌*◌, ◌≤◌, ◌≡◌, ◌<◌, refl, arith, Bool, Option, none, some, u16, le16, get_elem?, length,
  replicate, Outcome,
}
use rtic_ecmaster.Coe.Seq.{build_mapping, build_assign}
use rtic_ecmaster.Coe.Seq.Ends.{get_elem?-some}
use rtic_ecmaster.FmmuConfig
use rtic_ecmaster.Sync
use rtic_ecmaster.Config.{EcDirection, input, output, SmCfg, PdoCfg, FmmuCfg, DcCfg, SlaveCfg}
use rtic_ecmaster.Dc.{dc_activation_reg, DcRef}
use rtic_ecmaster.Device.{Enet}
use rtic_ecmaster.Exchange.{Bus}
use rtic_ecmaster.Exchange.Runs.{Good, Final, run, run-Final}
use rtic_ecmaster.Slave.{Mailbox}
use rtic_ecmaster.SlaveConfig.{
  Phase, clear_fmmus, dc_clear, mbox_sm0, mbox_sm1, to_preop, sdo_init, pdo_mapping, pdo_assign,
  pd_sm, watchdog_div, watchdog_time, fmmu, run_change, run_seq, run_seq?, run_dc, map_pdo, map_sm,
  assign_sm, write_sm, write_fmmu, cycle_dc, step_in, step, dc_cycle, to_safeop, done, sm_page,
  sm0_reg, sm1_reg, preop, safeop, wd_divider_reg, wd_divider_value, wd_pdata_reg, wd_pdata_value,
  fmmu_base_reg, start_sdo_init, start_mapping, next_pdo, next_sm, start_fmmus, next_fmmu, finish,
  FsmSlaveConfig, new, goto, then_goto, seq_of,
}
use rtic_ecmaster.Coe.Seq.Fresh.{build_mapping-Fresh, build_assign-Fresh}
use rtic_ecmaster.SlaveConfig.Measure.{mappings, measure, IsValid}
use rtic_ecmaster.SlaveConfig.Parts.{when-Good, seq_of-Valid}
use rtic_ecmaster.SlaveConfig.Calls.{
  write-Part, run_change-Part, run_seq-Part, run_seq?-Part, run_dc-Part,
}
use rtic_ecmaster.SlaveConfig.Follows.{
  moved, goto-Valid, then_goto-Follows, start_sdo_init-Follows, mappings_left-next_sm,
  start_mapping-Follows, start_fmmus-Follows, next_fmmu-Follows, finish-Follows,
  next_sm-Follows_pd_sm, next_sm-Follows_pdo_assign, next_pdo-Follows,
}

pub new-IsValid :
    (station : ℕ) (mbox : Mailbox) (slave : SlaveCfg) (dc_ref : DcRef)
    → IsValid (new station mbox slave dc_ref)
      × (measure (new station mbox slave dc_ref)
          < (15 + length slave.fmmus + 2 * length slave.sms + mappings slave.sms) * 78371418)
unfolding new
new-IsValid station mbox slave dc_ref =
    (record { buffer = refl; few = omega arith; change = tt; seq = tt; dc = tt }, omega arith)

module _ {S : Type 0} (nic : Enet S) where
  abbrev Steps : FsmSlaveConfig → FsmSlaveConfig × Bus S × Outcome Bool → Type 0
  Steps f r = Good IsValid measure (measure f) r.0 r.2

  map_pdo-Good :
      (f : FsmSlaveConfig) (bus : Bus S) (sm : SmCfg) (pdo : Option PdoCfg)
      → f.phase ≡ pdo_mapping
      → get_elem? f.slave.sms f.sm_idx ≡ some sm
      → get_elem? sm.pdos f.pdo_idx ≡ pdo
      → IsValid f
      → Steps f (map_pdo nic f bus pdo)
  map_pdo-Good f bus sm none at here e v =
      moved f (record f { sm_idx = f.sm_idx + 1; pdo_idx = 0 })
        (record { buffer = v.buffer; few = v.few; change = v.change; seq = v.seq; dc = v.dc })
        (ground (arith, mappings_left-next_sm f.slave.sms f.sm_idx f.pdo_idx sm here))
  map_pdo-Good f bus sm (some pdo) at here e v =
      when-Good f (run_seq nic f bus (seq_of f.seq (build_mapping f.mbox pdo))) next_pdo
        (run_seq-Part nic f bus (seq_of f.seq (build_mapping f.mbox pdo)) v
          (seq_of-Valid f.seq (build_mapping f.mbox pdo) (build_mapping-Fresh f.mbox pdo) v.seq))
        (next_pdo-Follows f sm at here (get_elem?-some sm.pdos f.pdo_idx pdo e))

  map_sm-Good :
      (f : FsmSlaveConfig) (bus : Bus S) (sm : Option SmCfg)
      → f.phase ≡ pdo_mapping
      → get_elem? f.slave.sms f.sm_idx ≡ sm
      → IsValid f
      → Steps f (map_sm nic f bus sm)
  map_sm-Good f bus none at e v =
      moved f (goto (record f { sm_idx = 0 }) pdo_assign)
        (record { buffer = v.buffer; few = omega arith; change = v.change; seq = v.seq; dc = v.dc })
        (ground arith)
  map_sm-Good f bus (some sm) at e v =
      map_pdo-Good f bus sm (get_elem? sm.pdos f.pdo_idx) at e refl v

  assign_sm-Good :
      (f : FsmSlaveConfig) (bus : Bus S) (sm : Option SmCfg)
      → f.phase ≡ pdo_assign
      → get_elem? f.slave.sms f.sm_idx ≡ sm
      → IsValid f
      → Steps f (assign_sm nic f bus sm)
  assign_sm-Good f bus none at e v =
      moved f (goto (record f { sm_idx = 0 }) pd_sm)
        (record { buffer = v.buffer; few = omega arith; change = v.change; seq = v.seq; dc = v.dc })
        (ground arith)
  assign_sm-Good f bus (some sm) at e v =
      let fresh = build_assign f.mbox sm.index sm.pdos in
      when-Good f (run_seq nic f bus (seq_of f.seq fresh)) next_sm
        (run_seq-Part nic f bus (seq_of f.seq fresh) v
          (seq_of-Valid f.seq fresh (build_assign-Fresh f.mbox sm.index sm.pdos) v.seq))
        (next_sm-Follows_pdo_assign f at (get_elem?-some f.slave.sms f.sm_idx sm e))

  sm_page_size : (sm : SmCfg) (dir : EcDirection) → length (sm_page sm dir) ≤ 48
  sm_page_size sm input = omega arith
  sm_page_size sm output = omega arith

  write_sm-Good :
      (f : FsmSlaveConfig) (bus : Bus S) (sm : Option SmCfg)
      → f.phase ≡ pd_sm
      → get_elem? f.slave.sms f.sm_idx ≡ sm
      → IsValid f
      → Steps f (write_sm nic f bus sm)
  write_sm-Good f bus none at e v =
      moved f (goto f watchdog_div) (goto-Valid f watchdog_div v) (ground arith)
  write_sm-Good f bus (some sm) at e v =
      when-Good f _ next_sm
        (write-Part nic f bus (u16 (sm0_reg + sm.index * Sync.page_size)) (sm_page sm sm.dir) v
          (sm_page_size sm sm.dir))
        (next_sm-Follows_pd_sm f at (get_elem?-some f.slave.sms f.sm_idx sm e))

  write_fmmu-Good :
      (f : FsmSlaveConfig) (bus : Bus S) (cfg : Option FmmuCfg)
      → f.phase ≡ fmmu
      → get_elem? f.slave.fmmus f.fmmu_idx ≡ cfg
      → IsValid f
      → Steps f (write_fmmu nic f bus cfg)
  write_fmmu-Good f bus none at e v =
      moved f (goto f dc_cycle) (goto-Valid f dc_cycle v) (ground arith)
  write_fmmu-Good f bus (some cfg) at e v =
      when-Good f _ next_fmmu
        (write-Part nic f bus (u16 (fmmu_base_reg + f.fmmu_idx * FmmuConfig.page_size))
          (FmmuConfig.write_page cfg) v (omega arith))
        (next_fmmu-Follows f at (get_elem?-some f.slave.fmmus f.fmmu_idx cfg e))

  cycle_dc-Good :
      (f : FsmSlaveConfig) (bus : Bus S) (cfg : Option DcCfg)
      → f.phase ≡ dc_cycle
      → IsValid f
      → Steps f (cycle_dc nic f bus cfg)
  cycle_dc-Good f bus none at v =
      moved f (goto f to_safeop) (goto-Valid f to_safeop v) (ground arith)
  cycle_dc-Good f bus (some cfg) at v =
      when-Good f (run_dc nic f bus cfg) (then_goto to_safeop) (run_dc-Part nic f bus cfg v)
        (then_goto-Follows f to_safeop (ground arith))

  step_in-Good :
      (p : Phase) (f : FsmSlaveConfig) (bus : Bus S)
      → f.phase ≡ p
      → IsValid f
      → Steps f (step_in nic p f bus)
  unfolding step_in
  step_in-Good clear_fmmus f bus at v =
      when-Good f _ (then_goto dc_clear)
        (write-Part nic f bus fmmu_base_reg (replicate 48 0) v (omega arith))
        (then_goto-Follows f dc_clear (ground arith))
  step_in-Good dc_clear f bus at v =
      when-Good f _ (then_goto mbox_sm0)
        (write-Part nic f bus dc_activation_reg (replicate 2 0) v (omega arith))
        (then_goto-Follows f mbox_sm0 (ground arith))
  step_in-Good mbox_sm0 f bus at v =
      when-Good f _ (then_goto mbox_sm1)
        (write-Part nic f bus sm0_reg (Sync.write_mailbox_out f.mbox.rx_offset f.mbox.rx_size) v
          (omega arith))
        (then_goto-Follows f mbox_sm1 (ground arith))
  step_in-Good mbox_sm1 f bus at v =
      when-Good f _ (then_goto to_preop)
        (write-Part nic f bus sm1_reg (Sync.write_mailbox_in f.mbox.tx_offset f.mbox.tx_size) v
          (omega arith))
        (then_goto-Follows f to_preop (ground arith))
  step_in-Good to_preop f bus at v =
      when-Good f (run_change nic f bus preop) start_sdo_init (run_change-Part nic f bus preop v)
        (start_sdo_init-Follows f at)
  step_in-Good sdo_init f bus at v =
      when-Good f (run_seq? nic f bus f.seq) start_mapping (run_seq?-Part nic f bus f.seq refl v)
        (start_mapping-Follows f at)
  step_in-Good pdo_mapping f bus at v = map_sm-Good f bus (get_elem? f.slave.sms f.sm_idx) at refl v
  step_in-Good pdo_assign f bus at v =
      assign_sm-Good f bus (get_elem? f.slave.sms f.sm_idx) at refl v
  step_in-Good pd_sm f bus at v = write_sm-Good f bus (get_elem? f.slave.sms f.sm_idx) at refl v
  step_in-Good watchdog_div f bus at v =
      when-Good f _ (then_goto watchdog_time)
        (write-Part nic f bus wd_divider_reg (le16 wd_divider_value) v (omega arith))
        (then_goto-Follows f watchdog_time (ground arith))
  step_in-Good watchdog_time f bus at v =
      when-Good f _ start_fmmus
        (write-Part nic f bus wd_pdata_reg (le16 wd_pdata_value) v (omega arith))
        (start_fmmus-Follows f at)
  step_in-Good fmmu f bus at v =
      write_fmmu-Good f bus (get_elem? f.slave.fmmus f.fmmu_idx) at refl v
  step_in-Good dc_cycle f bus at v = cycle_dc-Good f bus f.slave.dc at v
  step_in-Good to_safeop f bus at v =
      when-Good f (run_change nic f bus safeop) finish (run_change-Part nic f bus safeop v)
        (finish-Follows f)
  step_in-Good done f bus at v = (λ e. cc, λ e. cc)

  pub step-Good :
      (f : FsmSlaveConfig) (bus : Bus S)
      → IsValid f
      → Good IsValid measure (measure f) (step nic f bus).0 (step nic f bus).2
  unfolding step
  step-Good f bus v = step_in-Good f.phase f bus refl v

  pub bring_up-Ended :
      (station : ℕ) (mbox : Mailbox) (slave : SlaveCfg) (dc_ref : DcRef) (bus : Bus S)
      → Final
          (run
            (step nic)
            ((15 + length slave.fmmus + 2 * length slave.sms + mappings slave.sms) * 78371418)
            (new station mbox slave dc_ref)
            bus).2
  bring_up-Ended station mbox slave dc_ref bus =
      let (valid, few) = new-IsValid station mbox slave dc_ref in
      run-Final (step nic) IsValid measure step-Good
        ((15 + length slave.fmmus + 2 * length slave.sms + mappings slave.sms) * 78371418)
        (new station mbox slave dc_ref) bus valid few
