-- ===== src/SlaveConfig/Underway.antt =====
-- A bring-up on its way: what its parts leave, and the phases without a change of state.
use mathlib.Core.Path.{subst}
use rtic_ecmaster.Base.{
  ℕ, ◌+◌, ◌*◌, ◌≡◌, ◌≢◌, inl, inr, refl, sym, ◌∙◌, Bool, true, false, Option, none, some, List, u16,
  get_elem?, ◌==◌, Bool-cases, Outcome, ok, err, panic,
}
use rtic_ecmaster.Change.{FsmChange}
use rtic_ecmaster.Change
use rtic_ecmaster.Change.Reached.{Shown, OnItsWay}
use rtic_ecmaster.Coe.Seq.{CoeSeq, build_mapping, build_assign}
use rtic_ecmaster.Config.{SmCfg, PdoCfg, FmmuCfg, DcCfg}
use rtic_ecmaster.Datagram.{Reply, fpwr}
use rtic_ecmaster.Device.{Enet}
use rtic_ecmaster.Exchange.{Exchange, Bus, single, ask, answer}
use rtic_ecmaster.FmmuConfig
use rtic_ecmaster.Sync
use rtic_ecmaster.SlaveConfig.{
  Phase, to_preop, pdo_assign, pd_sm, watchdog_div, dc_cycle, to_safeop, done, FsmSlaveConfig, put,
  goto, when, then_goto, acked, seq_of, write, run_seq, run_seq?, run_dc, map_pdo, map_sm,
  assign_sm, write_sm, write_fmmu, cycle_dc, sm_page, sm0_reg, fmmu_base_reg, start_sdo_init,
  start_mapping, next_pdo, next_sm, start_fmmus, next_fmmu,
}

-- The change of state that a phase works on, to PRE-OP or to SAFE-OP; the other phases have none.
abbrev pub ChangeOf : ℕ → Phase → Option FsmChange → Type 0
ChangeOf station p none = Unit {0}
ChangeOf station to_preop (some c) = OnItsWay station 2 c
ChangeOf station to_safeop (some c) = OnItsWay station 4 c
ChangeOf station _ (some c) = ⊥

-- A bring-up on its way.
pub record Underway (station : ℕ) (f : FsmSlaveConfig) : Type 0 where
  pub same_station : f.station ≡ station
  pub not_done : f.phase ≢ done
  pub changing : ChangeOf station f.phase f.change

-- The bring-up is done, and the last call on the bus was the call of a state change to SAFE-OP of
-- this slave that reported success and has seen that state.
pub record SafeOp {S : Type 0} (nic : Enet S) (station : ℕ) (f : FsmSlaveConfig) (bus : Bus S)
    : Type 0 where
  pub is_done : f.phase ≡ done
  pub before : FsmChange
  pub bus_before : Bus S
  pub after : FsmChange
  pub last : Change.step nic before bus_before ≡ (after, bus, ok true)
  pub shown : Shown station 4 after

pub Underway-none :
    (station : ℕ) (f : FsmSlaveConfig)
    → f.station ≡ station
    → f.phase ≢ done
    → f.change ≡ none
    → Underway station f
Underway-none station f s n c = record {
  same_station = s;
  not_done = n;
  changing = subst (ChangeOf station f.phase) (sym c) tt;
}

-- A phase without a change of state.
abbrev Plain : Phase → Type 0
Plain p = (station : ℕ) (c : Option FsmChange) → ChangeOf station p c → c ≡ none

-- A part that is not the change of state leaves the phase, the station and the change.
pub record Same (f f' : FsmSlaveConfig) : Type 0 where
  pub phase_same : f'.phase ≡ f.phase
  pub station_same : f'.station ≡ f.station
  pub change_same : f'.change ≡ f.change

Same-refl : (f : FsmSlaveConfig) → Same f f
Same-refl f = record { phase_same = refl; station_same = refl; change_same = refl }

module _ {S : Type 0} (nic : Enet S) (station : ℕ) where
  abbrev pub Brings : FsmSlaveConfig × Bus S × Outcome Bool → Type 0
  Brings r = (r.2 ≡ ok true → SafeOp nic station r.0 r.1) × (r.2 ≡ ok false → Underway station r.0)

  -- What follows a part goes on in a phase that is not the last.
  abbrev pub Follows : (FsmSlaveConfig → FsmSlaveConfig × Outcome Bool) → Type 0
  Follows follow =
      (g : FsmSlaveConfig)
      → g.station ≡ station
      → g.phase ≢ done
      → g.change ≡ none
      → ((follow g).1 ≡ ok false) × Underway station (follow g).0

  waits : (f : FsmSlaveConfig) (bus : Bus S) → Underway station f → Brings (f, bus, ok false)
  waits f bus u = (λ e. absurd cc, λ e. u)

  pub when-Brings :
      (f : FsmSlaveConfig) (r : FsmSlaveConfig × Bus S × Outcome Bool)
      (follow : FsmSlaveConfig → FsmSlaveConfig × Outcome Bool)
      → Underway station f
      → f.change ≡ none
      → Same f r.0
      → Follows follow
      → Brings (when r follow)
  when-Brings f (f', bus, ok true) follow u c same next =
      let (goes, later) =
        next f' (same.station_same ∙ u.same_station) (λ e. u.not_done (sym same.phase_same ∙ e))
          (same.change_same ∙ c) in
      (λ e. absurd cc, λ e. later)
  when-Brings f (f', bus, ok false) follow u c same next = waits f' bus (
      Underway-none station f' (same.station_same ∙ u.same_station)
        (λ e. u.not_done (sym same.phase_same ∙ e)) (same.change_same ∙ c))
  when-Brings f (f', bus, err k) follow u c same next = (λ e. absurd cc, λ e. absurd cc)
  when-Brings f (f', bus, panic) follow u c same next = (λ e. absurd cc, λ e. absurd cc)

  write-Same :
      (f : FsmSlaveConfig) (bus : Bus S) (ado : ℕ) (payload : List ℕ)
      → Same f (write nic f bus ado payload).0
  unfolding write acked
  write-Same f bus ado payload = answers (ask nic (single fpwr f.station ado payload) f.link bus)
    where
      answers :
          (r : Exchange × Bus S × Outcome (Option Reply)) → Same f (answer r (put f) false acked).0
      answers (x, b, ok none) = record {
        phase_same = refl;
        station_same = refl;
        change_same = refl;
      }
      answers (x, b, ok (some reply)) = elim (Bool-cases (reply.working_counter == 1)) [
        | inl e ↦ rw e (record { phase_same = refl; station_same = refl; change_same = refl })
        | inr e ↦ rw e (record { phase_same = refl; station_same = refl; change_same = refl })
      ]
      answers (x, b, err e) = record { phase_same = refl; station_same = refl; change_same = refl }
      answers (x, b, panic) = record { phase_same = refl; station_same = refl; change_same = refl }

  run_seq-Same :
      (f : FsmSlaveConfig) (bus : Bus S) (seq : CoeSeq) → Same f (run_seq nic f bus seq).0
  unfolding run_seq
  run_seq-Same f bus seq = record { phase_same = refl; station_same = refl; change_same = refl }

  pub run_seq?-Same :
      (f : FsmSlaveConfig) (bus : Bus S) (seq : Option CoeSeq) → Same f (run_seq? nic f bus seq).0
  run_seq?-Same f bus none = Same-refl f
  run_seq?-Same f bus (some seq) = run_seq-Same f bus seq

  run_dc-Same : (f : FsmSlaveConfig) (bus : Bus S) (cfg : DcCfg) → Same f (run_dc nic f bus cfg).0
  unfolding run_dc
  run_dc-Same f bus cfg = record { phase_same = refl; station_same = refl; change_same = refl }

  -- What follows the parts.
  pub then_goto-Follows : (p : Phase) → p ≢ done → Follows (then_goto p)
  then_goto-Follows p ne g s n c = (refl, Underway-none station (goto g p) s ne c)

  next_pdo-Follows : Follows next_pdo
  next_pdo-Follows g s n c = (refl, Underway-none station (next_pdo g).0 s n c)

  next_sm-Follows : Follows next_sm
  next_sm-Follows g s n c = (refl, Underway-none station (next_sm g).0 s n c)

  next_fmmu-Follows : Follows next_fmmu
  next_fmmu-Follows g s n c = (refl, Underway-none station (next_fmmu g).0 s n c)

  pub start_mapping-Follows : Follows start_mapping
  start_mapping-Follows g s n c = (refl, Underway-none station (start_mapping g).0 s (λ e. cc) c)

  pub start_fmmus-Follows : Follows start_fmmus
  start_fmmus-Follows g s n c = (refl, Underway-none station (start_fmmus g).0 s (λ e. cc) c)

  start_sdo_init-Follows : Follows start_sdo_init
  start_sdo_init-Follows g s n c = (refl, Underway-none station (start_sdo_init g).0 s (λ e. cc) c)

  -- The phases that work through a list.
  pub write-Brings :
      (f : FsmSlaveConfig) (bus : Bus S) (ado : ℕ) (payload : List ℕ)
      (follow : FsmSlaveConfig → FsmSlaveConfig × Outcome Bool)
      → Underway station f
      → f.change ≡ none
      → Follows follow
      → Brings (when (write nic f bus ado payload) follow)
  write-Brings f bus ado payload follow u c next =
      when-Brings f (write nic f bus ado payload) follow u c (write-Same f bus ado payload) next

  map_pdo-Brings :
      (f : FsmSlaveConfig) (bus : Bus S) (pdo : Option PdoCfg)
      → Underway station f
      → f.change ≡ none
      → Brings (map_pdo nic f bus pdo)
  map_pdo-Brings f bus none u c =
      waits (record f { sm_idx = f.sm_idx + 1; pdo_idx = 0 }) bus
        (Underway-none station _ u.same_station u.not_done c)
  map_pdo-Brings f bus (some pdo) u c =
      let seq = seq_of f.seq (build_mapping f.mbox pdo) in
      when-Brings f (run_seq nic f bus seq) next_pdo u c (run_seq-Same f bus seq) next_pdo-Follows

  pub map_sm-Brings :
      (f : FsmSlaveConfig) (bus : Bus S) (sm : Option SmCfg)
      → Underway station f
      → f.change ≡ none
      → Brings (map_sm nic f bus sm)
  map_sm-Brings f bus none u c =
      waits (goto (record f { sm_idx = 0 }) pdo_assign) bus
        (Underway-none station _ u.same_station (λ e. cc) c)
  map_sm-Brings f bus (some sm) u c = map_pdo-Brings f bus (get_elem? sm.pdos f.pdo_idx) u c

  pub assign_sm-Brings :
      (f : FsmSlaveConfig) (bus : Bus S) (sm : Option SmCfg)
      → Underway station f
      → f.change ≡ none
      → Brings (assign_sm nic f bus sm)
  assign_sm-Brings f bus none u c =
      waits (goto (record f { sm_idx = 0 }) pd_sm) bus
        (Underway-none station _ u.same_station (λ e. cc) c)
  assign_sm-Brings f bus (some sm) u c =
      let seq = seq_of f.seq (build_assign f.mbox sm.index sm.pdos) in
      when-Brings f (run_seq nic f bus seq) next_sm u c (run_seq-Same f bus seq) next_sm-Follows

  pub write_sm-Brings :
      (f : FsmSlaveConfig) (bus : Bus S) (sm : Option SmCfg)
      → Underway station f
      → f.change ≡ none
      → Brings (write_sm nic f bus sm)
  write_sm-Brings f bus none u c =
      waits (goto f watchdog_div) bus (Underway-none station _ u.same_station (λ e. cc) c)
  write_sm-Brings f bus (some sm) u c =
      write-Brings f bus (u16 (sm0_reg + sm.index * Sync.page_size)) (sm_page sm sm.dir) next_sm u c
        next_sm-Follows

  pub write_fmmu-Brings :
      (f : FsmSlaveConfig) (bus : Bus S) (cfg : Option FmmuCfg)
      → Underway station f
      → f.change ≡ none
      → Brings (write_fmmu nic f bus cfg)
  write_fmmu-Brings f bus none u c =
      waits (goto f dc_cycle) bus (Underway-none station _ u.same_station (λ e. cc) c)
  write_fmmu-Brings f bus (some cfg) u c =
      write-Brings f bus (u16 (fmmu_base_reg + f.fmmu_idx * FmmuConfig.page_size))
        (FmmuConfig.write_page cfg) next_fmmu u c next_fmmu-Follows

  pub cycle_dc-Brings :
      (f : FsmSlaveConfig) (bus : Bus S) (cfg : Option DcCfg)
      → Underway station f
      → f.change ≡ none
      → Brings (cycle_dc nic f bus cfg)
  cycle_dc-Brings f bus none u c =
      waits (goto f to_safeop) bus (Underway-none station _ u.same_station (λ e. cc) c)
  cycle_dc-Brings f bus (some cfg) u c =
      when-Brings f (run_dc nic f bus cfg) (then_goto to_safeop) u c (run_dc-Same f bus cfg)
        (then_goto-Follows to_safeop (λ e. cc))
