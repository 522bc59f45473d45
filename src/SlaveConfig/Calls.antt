-- ===== src/SlaveConfig/Calls.antt =====
-- What a call of a part of the bring-up of a slave gives.
use mathlib.Core.Path.{subst}
use rtic_ecmaster.Base.{
  ℕ, ◌≤◌, ◌<◌, ◌≡◌, Bool-cases, inl, inr, refl, sym, arith, false, Option, none, some, List, length,
  ◌==◌,
}
use rtic_ecmaster.Change.{FsmChange}
use rtic_ecmaster.Change
use rtic_ecmaster.Change.Ends as ChangeEnds
use rtic_ecmaster.Coe.Seq.{CoeSeq, push, build_mapping, build_assign, push_pdos, push_entries}
use rtic_ecmaster.Coe.Seq
use rtic_ecmaster.Coe.Seq.Ends as SeqEnds
use rtic_ecmaster.Config.{DcCfg}
use rtic_ecmaster.Datagram.{Reply, fpwr}
use rtic_ecmaster.Dc.{DcRef, FsmDc}
use rtic_ecmaster.Dc
use rtic_ecmaster.Dc.Ends as DcEnds
use rtic_ecmaster.Device.{Enet}
use rtic_ecmaster.Exchange.{Exchange, rebuild, Bus, single, ask}
use rtic_ecmaster.Exchange.Pending.{single-Writes, ask-Fair, answer-elim}
use rtic_ecmaster.Exchange.Runs.{Good}
use rtic_ecmaster.SlaveConfig.{
  write, run_change, run_seq, run_seq?, run_dc, FsmSlaveConfig, put, acked, change_of, dc_of, kept,
}
use rtic_ecmaster.SlaveConfig.Measure.{
  change_calls, seq_calls, dc_calls, part_left, PartValid, IsValid,
}
use rtic_ecmaster.SlaveConfig.Parts.{Part, kept-Valid, kept-none, change_of-Valid, dc_of-Valid}

module _ {S : Type 0} (nic : Enet S) where
  pub write-Part :
      (f : FsmSlaveConfig) (bus : Bus S) (ado : ℕ) (payload : List ℕ)
      → IsValid f
      → length payload ≤ 48
      → let r = write nic f bus ado payload in Part f r.0 r.2
  unfolding write acked
  write-Part f bus ado payload v few =
      answer-elim (Part f) (ask nic (single fpwr f.station ado payload) f.link bus) (put f) false
        acked
        (ask-Fair nic 96 (single fpwr f.station ado payload)
          (single-Writes 96 fpwr f.station ado payload (omega arith) (omega arith) (omega arith))
          f.link bus v.buffer)
        (λ x size less. record {
          no_panic = λ e. cc;
          waits = λ e. (
            record {
              buffer = size;
              few = omega (arith, v.few);
              change = v.change;
              seq = v.seq;
              dc = v.dc;
            },
            omega (arith, less),
          );
          ends = λ e. cc;
        })
        (λ x reply size heard. acked-Part x reply size)
        (λ x e size. record { no_panic = λ p. cc; waits = λ p. cc; ends = λ p. cc })
    where
      acked-Part :
          (x : Exchange) (reply : Reply)
          → length x.tx ≡ 96
          → Part f (acked (put f x) reply).0 (acked (put f x) reply).1
      acked-Part x reply size = elim (Bool-cases (reply.working_counter == 1)) [
        | inl e ↦ rw e (record {
          no_panic = λ p. cc;
          waits = λ p. cc;
          ends = λ p. (
            rebuild x,
            f.change,
            f.seq,
            f.dc,
            refl,
            record { buffer = size; few = omega arith; change = v.change; seq = v.seq; dc = v.dc },
          );
        })
        | inr e ↦ rw e (record { no_panic = λ p. cc; waits = λ p. cc; ends = λ p. cc })
      ]

  pub run_change-Part :
      (f : FsmSlaveConfig) (bus : Bus S) (target : ℕ)
      → IsValid f
      → let r = run_change nic f bus target in Part f r.0 r.2
  unfolding run_change
  run_change-Part f bus target v =
      let c = change_of f target f.change in
      let (valid, few, within) = change_of-Valid f target f.change v.change in
      let (c', bus', o) = Change.step nic c bus in
      let good : Good ChangeEnds.IsValid ChangeEnds.measure (ChangeEnds.measure c) c' o =
        ChangeEnds.step-Good nic c bus valid in
      let kept_valid =
        kept-Valid ChangeEnds.IsValid ChangeEnds.measure change_calls (ChangeEnds.measure c) c' o
          good few in
      record {
        no_panic = good.0;
        waits = λ e. (
          record {
            buffer = v.buffer;
            few = v.few;
            change = (kept_valid e).0;
            seq = v.seq;
            dc = v.dc;
          },
          omega (arith, (kept_valid e).1, within),
        );
        ends = λ e. (
          f.link,
          kept c' o,
          f.seq,
          f.dc,
          refl,
          record {
            buffer = v.buffer;
            few = v.few;
            change =
                subst (PartValid ChangeEnds.IsValid ChangeEnds.measure change_calls)
                  (sym (kept-none c' o e)) tt;
            seq = v.seq;
            dc = v.dc;
          },
        );
      }

  pub run_seq-Part :
      (f : FsmSlaveConfig) (bus : Bus S) (seq : CoeSeq)
      → IsValid f
      → SeqEnds.IsValid seq
        × (SeqEnds.measure seq < seq_calls)
        × (SeqEnds.measure seq ≤ part_left SeqEnds.measure seq_calls f.seq)
      → let r = run_seq nic f bus seq in Part f r.0 r.2
  unfolding run_seq
  run_seq-Part f bus seq v (valid, few, within) =
      let (s', bus', o) = Seq.step nic seq bus in
      let good : Good SeqEnds.IsValid SeqEnds.measure (SeqEnds.measure seq) s' o =
        SeqEnds.step-Good nic seq bus valid in
      let kept_valid =
        kept-Valid SeqEnds.IsValid SeqEnds.measure seq_calls (SeqEnds.measure seq) s' o good few in
      record {
        no_panic = good.0;
        waits = λ e. (
          record {
            buffer = v.buffer;
            few = v.few;
            change = v.change;
            seq = (kept_valid e).0;
            dc = v.dc;
          },
          omega (arith, (kept_valid e).1, within),
        );
        ends = λ e. (
          f.link,
          f.change,
          kept s' o,
          f.dc,
          refl,
          record {
            buffer = v.buffer;
            few = v.few;
            change = v.change;
            seq =
                subst (PartValid SeqEnds.IsValid SeqEnds.measure seq_calls) (sym (kept-none s' o e))
                  tt;
            dc = v.dc;
          },
        );
      }

  pub run_seq?-Part :
      (f : FsmSlaveConfig) (bus : Bus S) (seq : Option CoeSeq)
      → f.seq ≡ seq
      → IsValid f
      → let r = run_seq? nic f bus seq in Part f r.0 r.2
  run_seq?-Part f bus none e v = record {
    no_panic = λ p. cc;
    waits = λ p. cc;
    ends = λ p. (f.link, f.change, f.seq, f.dc, refl, v);
  }
  run_seq?-Part f bus (some seq) e v =
      let (valid, few) = subst (PartValid SeqEnds.IsValid SeqEnds.measure seq_calls) e v.seq in
      run_seq-Part f bus seq v (
        valid,
        few,
        subst (λ s. SeqEnds.measure seq ≤ part_left SeqEnds.measure seq_calls s) (sym e)
            (omega arith),
      )

  pub run_dc-Part :
      (f : FsmSlaveConfig) (bus : Bus S) (cfg : DcCfg)
      → IsValid f
      → let r = run_dc nic f bus cfg in Part f r.0 r.2
  unfolding run_dc
  run_dc-Part f bus cfg v =
      let d = dc_of f cfg f.dc in
      let (valid, few, within) = dc_of-Valid f cfg f.dc v.dc in
      let (d', bus', o) = Dc.step nic d bus in
      let good : Good DcEnds.IsValid DcEnds.measure (DcEnds.measure d) d' o =
        DcEnds.step-Good nic d bus valid in
      let kept_valid =
        kept-Valid DcEnds.IsValid DcEnds.measure dc_calls (DcEnds.measure d) d' o good few in
      record {
        no_panic = good.0;
        waits = λ e. (
          record {
            buffer = v.buffer;
            few = v.few;
            change = v.change;
            seq = v.seq;
            dc = (kept_valid e).0;
          },
          omega (arith, (kept_valid e).1, within),
        );
        ends = λ e. (
          f.link,
          f.change,
          f.seq,
          kept d' o,
          refl,
          record {
            buffer = v.buffer;
            few = v.few;
            change = v.change;
            seq = v.seq;
            dc =
                subst (PartValid DcEnds.IsValid DcEnds.measure dc_calls) (sym (kept-none d' o e))
                  tt;
          },
        );
      }
