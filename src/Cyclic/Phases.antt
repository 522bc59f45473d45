-- ===== src/Cyclic/Phases.antt =====
-- The phases of the engine over the replies that it processes.
use mathlib.Core.List.{Memᴰ}
use rtic_ecmaster.Base.{
  ℕ, zero, suc, ◌<◌, ◌≡◌, refl, sym, ap, ◌∙◌, ◌⊎◌, ◌↔◌, inl, inr, arith, true, some, List, [], ◌∷◌,
  Option-cases, take, All,
}
use rtic_ecmaster.Datagram.{Reply, parse_at, frame_header_size}
use rtic_ecmaster.Domain.{apply_reply}
use rtic_ecmaster.Cyclic.{
  Cyclic, SlaveRt, priming, operational, faulted, priming_cycles, AppliedReply, nothing, fault,
  op_reached, drift, walk, mark_reached, apply_one, apply_actions, all_reached_op, gate_priming,
  gate_operational, process,
}

-- Every slave has reported OP.
abbrev pub InOp : List SlaveRt → Type 0
InOp ss = All (λ (s : SlaveRt). s.reached_op ≡ true) ss

all_reached_op-InOp : (ss : List SlaveRt) → (all_reached_op ss ≡ true) ↔ InOp ss
unfolding all_reached_op
all_reached_op-InOp [] = (λ h. tt, λ h. refl)
all_reached_op-InOp (s ∷ ss) =
    let later = all_reached_op-InOp ss in
    (λ h. (ground arith, later.0 (ground arith)), λ h. ground (arith, h.0, later.1 h.1))

-- What holds of the engine between two ticks.
pub record IsValid (c : Cyclic) : Type 0 where
  pub all_in_op : c.phase ≡ operational → InOp c.slaves
  pub short_priming : c.phase ≡ priming → c.good_cycles < priming_cycles

all_reached_op-mark :
    (ss : List SlaveRt) (idx : ℕ)
    → all_reached_op ss ≡ true
    → all_reached_op (mark_reached ss idx) ≡ true
unfolding all_reached_op mark_reached
all_reached_op-mark [] idx h = refl
all_reached_op-mark (s ∷ ss) zero h = ground arith
all_reached_op-mark (s ∷ ss) (suc idx) h = ground (arith, all_reached_op-mark ss idx)

-- What the loop over the decoded replies leaves.
record Kept (c c' : Cyclic) : Type 0 where
  phase_kept : (c'.phase ≡ c.phase) ⊎ (c'.phase ≡ faulted)
  good_kept : c'.good_cycles ≡ c.good_cycles
  reached_kept : all_reached_op c.slaves ≡ true → all_reached_op c'.slaves ≡ true

apply_one-Kept : (c : Cyclic) (a : AppliedReply) → Kept c (apply_one c a)
unfolding apply_one
apply_one-Kept c nothing = ground arith
apply_one-Kept c fault = ground arith
apply_one-Kept c (drift v) = ground arith
apply_one-Kept c (op_reached idx) = record {
  phase_kept = inl refl;
  good_kept = refl;
  reached_kept = all_reached_op-mark c.slaves idx;
}

apply_actions-Kept : (c : Cyclic) (actions : List AppliedReply) → Kept c (apply_actions c actions)
unfolding apply_actions
apply_actions-Kept c [] = ground arith
apply_actions-Kept c (a ∷ actions) =
    let one = apply_one-Kept c a in
    let more = apply_actions-Kept (apply_one c a) actions in
    record {
      phase_kept = ground arith;
      good_kept = more.good_kept ∙ one.good_kept;
      reached_kept = λ h. more.reached_kept (one.reached_kept h);
    }

gate_priming-IsValid : (c : Cyclic) (wkc : ℕ) → IsValid c → IsValid (gate_priming c wkc)
unfolding gate_priming
gate_priming-IsValid c wkc v = ground arith

gate_operational-IsValid : (c : Cyclic) → IsValid c → IsValid (gate_operational c)
unfolding gate_operational
gate_operational-IsValid c v = ground (arith, (all_reached_op-InOp c.slaves).0)

Kept-IsValid : {c c' : Cyclic} → Kept c c' → IsValid c → IsValid c'
Kept-IsValid {c} {c'} k v =
    ground (arith, (all_reached_op-InOp c.slaves).1, (all_reached_op-InOp c'.slaves).0)

-- Processing any reply keeps the engine valid: it is operational only with every slave in OP, and
-- stays in priming only below three good cycles.
pub process-IsValid : (c : Cyclic) (len : ℕ) → IsValid c → IsValid (process c len)
unfolding process
process-IsValid c len v =
    let frame = take len c.rx in
    elim (Option-cases (parse_at frame frame_header_size)) [
      | inl e ↦ rw (e, process) v
      | inr ((lrw, next), e) ↦
          rw (e, process)
            (let c' : Cyclic = record c { domain = (apply_reply c.domain lrw).0 } in
              let gated = gate_priming c' lrw.working_counter in
              gate_operational-IsValid (apply_actions gated (walk c.appended frame next)) (
                Kept-IsValid (apply_actions-Kept gated (walk c.appended frame next)) (
                  gate_priming-IsValid c' lrw.working_counter
                    (record { all_in_op = v.all_in_op; short_priming = v.short_priming }))))
    ]

gate_operational-faulted : (c : Cyclic) → c.phase ≡ faulted → (gate_operational c).phase ≡ faulted
unfolding gate_operational
gate_operational-faulted c h = ground arith

gate_priming-faulted :
    (c : Cyclic) (wkc : ℕ) → c.phase ≡ faulted → (gate_priming c wkc).phase ≡ faulted
unfolding gate_priming
gate_priming-faulted c wkc h = ground arith

-- A fault is final: processing any reply leaves the engine faulted.
pub process-faulted : (c : Cyclic) (len : ℕ) → c.phase ≡ faulted → (process c len).phase ≡ faulted
unfolding process
process-faulted c len h =
    let frame = take len c.rx in
    elim (Option-cases (parse_at frame frame_header_size)) [
      | inl e ↦ rw (e, process) h
      | inr ((lrw, next), e) ↦
          rw (e, process)
            (let c' : Cyclic = record c { domain = (apply_reply c.domain lrw).0 } in
              let gated = gate_priming c' lrw.working_counter in
              let actions = walk c.appended frame next in
              gate_operational-faulted (apply_actions gated actions) (
                ground (
                  arith,
                  gate_priming-faulted c' lrw.working_counter h,
                  (apply_actions-Kept gated actions).phase_kept,
                )))
    ]

apply_one-faulted :
    (c : Cyclic) (a : AppliedReply)
    → (apply_one c a).phase ≡ faulted
    → (c.phase ≡ faulted) ⊎ (a ≡ fault)
unfolding apply_one
apply_one-faulted c nothing h = inl h
apply_one-faulted c fault h = inr refl
apply_one-faulted c (op_reached idx) h = inl h
apply_one-faulted c (drift v) h = inl h

apply_actions-faulted :
    (c : Cyclic) (actions : List AppliedReply)
    → (apply_actions c actions).phase ≡ faulted
    → (c.phase ≡ faulted) ⊎ Memᴰ fault actions
unfolding apply_actions
apply_actions-faulted c [] h = inl h
apply_actions-faulted c (a ∷ actions) h = elim (apply_actions-faulted (apply_one c a) actions h) [
  | inr m ↦ inr (Memᴰ.tail m)
  | inl e ↦ elim (apply_one-faulted c a e) [ inl f ↦ inl f | inr f ↦ inr (Memᴰ.head (sym f)) ]
]

apply_actions-stay :
    (c : Cyclic) (actions : List AppliedReply)
    → c.phase ≡ faulted
    → (apply_actions c actions).phase ≡ faulted
apply_actions-stay c actions h = elim ((apply_actions-Kept c actions).phase_kept) [
  | inl e ↦ e ∙ h
  | inr e ↦ e
]

apply_actions-faults :
    (c : Cyclic) (actions : List AppliedReply)
    → Memᴰ fault actions
    → (apply_actions c actions).phase ≡ faulted
unfolding apply_actions apply_one
apply_actions-faults c [] m = elim m [ ]
apply_actions-faults c (a ∷ actions) (Memᴰ.head e) =
    apply_actions-stay (apply_one c a) actions (rw (sym e) refl)
apply_actions-faults c (a ∷ actions) (Memᴰ.tail m) = apply_actions-faults (apply_one c a) actions m

gate_operational-faulted_iff :
    (c : Cyclic) → (gate_operational c).phase ≡ faulted → c.phase ≡ faulted
unfolding gate_operational
gate_operational-faulted_iff c h = ground arith

gate_priming-faulted_iff :
    (c : Cyclic) (wkc : ℕ) → (gate_priming c wkc).phase ≡ faulted → c.phase ≡ faulted
unfolding gate_priming
gate_priming-faulted_iff c wkc h = ground arith

pub process_lem :
    (c : Cyclic) (len next : ℕ) (lrw : Reply)
    → parse_at (take len c.rx) frame_header_size ≡ some (lrw, next)
    → process c len
      ≡ gate_operational (
          apply_actions
            (gate_priming (record c { domain = (apply_reply c.domain lrw).0 }) lrw.working_counter)
            (walk c.appended (take len c.rx) next))
unfolding process
process_lem c len next lrw e = rw (e, process) refl

-- The engine that processes a reply faults exactly when it was faulted or one of the decoded
-- appended replies of this frame is a fault.
pub process-faults :
    (c : Cyclic) (len next : ℕ) (lrw : Reply)
    → parse_at (take len c.rx) frame_header_size ≡ some (lrw, next)
    → ((process c len).phase ≡ faulted)
      ↔ ((c.phase ≡ faulted) ⊎ Memᴰ fault (walk c.appended (take len c.rx) next))
process-faults c len next lrw e =
    let c' : Cyclic = record c { domain = (apply_reply c.domain lrw).0 } in
    let gated = gate_priming c' lrw.working_counter in
    let actions = walk c.appended (take len c.rx) next in
    let eq = process_lem c len next lrw e in
    (
      λ h.
          elim (apply_actions-faulted gated actions (
            gate_operational-faulted_iff (apply_actions gated actions)
              (ap (λ x. x.phase) (sym eq) ∙ h))) [
                | inl f ↦ inl (gate_priming-faulted_iff c' lrw.working_counter f)
                | inr m ↦ inr m
              ],
      λ h.
          ap (λ x. x.phase) eq
          ∙ gate_operational-faulted (apply_actions gated actions) (elim h [
            | inl f ↦
                apply_actions-stay gated actions (gate_priming-faulted c' lrw.working_counter f)
            | inr m ↦ apply_actions-faults gated actions m
          ]),
    )
