-- ===== src/Cyclic/Marks.antt =====
-- Which slaves the engine counts in OP: src/ethercat/cyclic.rs, the status replies of `process`.
use rtic_ecmaster.Base.{
  ℕ, zero, suc, ◌/◌, ◌%◌, ◌<◌, ◌≡◌, ◌≢◌, refl, sym, ap, ◌∙◌, ◌↔◌, ◌⊎◌, inl, inr, arith, true, some,
  List, [], ◌∷◌, length, byte_at, take,
}
use mathlib.Core.Path.{subst}
use rtic_ecmaster.Datagram.{Reply, parse_at, frame_header_size}
use rtic_ecmaster.Datagram.Wire.{Datagram, reply_of, Decodes}
use rtic_ecmaster.Domain.{apply_reply}
use rtic_ecmaster.Cyclic.{
  Appended, control, dc_armw, dc_diff, al_poll, status, AppliedReply, nothing, fault, op_reached,
  drift, Cyclic, SlaveRt, decode_appended, mark_reached, apply_one, apply_actions, gate_priming,
  gate_operational, walk, process,
}
use rtic_ecmaster.Cyclic.Phases.{process_lem}
use rtic_ecmaster.Cyclic.Replies.{effects, walk-Decodes}

-- The slave with this number has reported OP.
abbrev pub Marked : List SlaveRt → ℕ → Type 0
Marked [] idx = ⊥
Marked (s ∷ ss) zero = s.reached_op ≡ true
Marked (s ∷ ss) (suc idx) = Marked ss idx

-- The datagram comes back from the status read of this slave, which processed it, and its status
-- byte has the state 8, OP, in the bits 0 to 3, and the error bit 4 clear.
pub record SaysOp (k : Appended) (d : Datagram) (idx : ℕ) : Type 0 where
  pub asked : k ≡ status idx
  pub processed : d.working_counter ≢ 0
  pub no_error : byte_at d.payload 0 / 16 % 2 ≡ 0
  pub in_op : byte_at d.payload 0 % 16 ≡ 8

-- One of the replies to the appended datagrams, in their order, says so.
abbrev pub Reported : List Appended → List Datagram → ℕ → Type 0
Reported [] ds idx = ⊥
Reported (k ∷ ks) [] idx = ⊥
Reported (k ∷ ks) (d ∷ ds) idx = SaysOp k d idx ⊎ Reported ks ds idx

decode-SaysOp :
    (k : Appended) (d : Datagram) (idx : ℕ)
    → decode_appended k (reply_of d) ≡ op_reached idx
    → SaysOp k d idx
unfolding decode_appended
decode-SaysOp control d idx h = absurd cc
decode-SaysOp dc_armw d idx h = absurd cc
decode-SaysOp dc_diff d idx h = absurd (ground arith)
decode-SaysOp al_poll d idx h = absurd (ground arith)
decode-SaysOp (status i) d idx h = record {
  asked = ground arith;
  processed = ground arith;
  no_error = ground arith;
  in_op = ground arith;
}

SaysOp-decode :
    (k : Appended) (d : Datagram) (idx : ℕ)
    → SaysOp k d idx
    → decode_appended k (reply_of d) ≡ op_reached idx
unfolding decode_appended
SaysOp-decode control d idx s = absurd (let e = s.asked in cc)
SaysOp-decode dc_armw d idx s = absurd (let e = s.asked in cc)
SaysOp-decode dc_diff d idx s = absurd (let e = s.asked in cc)
SaysOp-decode al_poll d idx s = absurd (let e = s.asked in cc)
SaysOp-decode (status i) d idx s = ground (arith, s.asked, s.processed, s.no_error, s.in_op)

Marked-mark_reached :
    (ss : List SlaveRt) (i idx : ℕ)
    → Marked (mark_reached ss i) idx ↔ (Marked ss idx ⊎ ((i ≡ idx) × (idx < length ss)))
unfolding mark_reached
Marked-mark_reached [] i idx = (λ h. absurd h, λ h. ground arith)
Marked-mark_reached (s ∷ ss) zero zero = (λ h. inr (refl, omega arith), λ h. refl)
Marked-mark_reached (s ∷ ss) zero (suc idx) =
    (λ h. inl h, λ h. elim h [ inl m ↦ m | inr p ↦ absurd (omega (arith, p.0)) ])
Marked-mark_reached (s ∷ ss) (suc i) zero =
    (λ h. inl h, λ h. elim h [ inl m ↦ m | inr p ↦ absurd (omega (arith, p.0)) ])
Marked-mark_reached (s ∷ ss) (suc i) (suc idx) =
    let later = Marked-mark_reached ss i idx in
    (
      λ h. elim (later.0 h) [
        | inl m ↦ inl m
        | inr p ↦ inr (omega (arith, p.0), omega (arith, p.1))
      ],
      λ h.
          later.1 (elim h [ inl m ↦ inl m | inr p ↦ inr (omega (arith, p.0), omega (arith, p.1)) ]),
    )

length-mark_reached : (ss : List SlaveRt) (i : ℕ) → length (mark_reached ss i) ≡ length ss
unfolding mark_reached
length-mark_reached [] i = refl
length-mark_reached (s ∷ ss) zero = refl
length-mark_reached (s ∷ ss) (suc i) = ap suc (length-mark_reached ss i)

length-apply_one : (c : Cyclic) (a : AppliedReply) → length (apply_one c a).slaves ≡ length c.slaves
unfolding apply_one
length-apply_one c nothing = refl
length-apply_one c fault = refl
length-apply_one c (op_reached i) = length-mark_reached c.slaves i
length-apply_one c (drift v) = refl

-- The effect of one reply on the mark of one slave.
Marks : Cyclic → AppliedReply → ℕ → Type 0
Marks c a idx = (a ≡ op_reached idx) × (idx < length c.slaves)

Marked-apply_one :
    (c : Cyclic) (a : AppliedReply) (idx : ℕ)
    → Marked (apply_one c a).slaves idx ↔ (Marked c.slaves idx ⊎ Marks c a idx)
unfolding apply_one Marks
Marked-apply_one c nothing idx = (λ h. inl h, λ h. elim h [ inl m ↦ m | inr p ↦ absurd cc ])
Marked-apply_one c fault idx = (λ h. inl h, λ h. elim h [ inl m ↦ m | inr p ↦ absurd cc ])
Marked-apply_one c (drift v) idx = (λ h. inl h, λ h. elim h [ inl m ↦ m | inr p ↦ absurd cc ])
Marked-apply_one c (op_reached i) idx =
    let marked = Marked-mark_reached c.slaves i idx in
    (
      λ h. elim (marked.0 h) [ inl m ↦ inl m | inr p ↦ inr (ap op_reached p.0, p.1) ],
      λ h. marked.1 (elim h [ inl m ↦ inl m | inr p ↦ inr (ground arith, p.1) ]),
    )

Marked-apply_actions :
    (c : Cyclic) (ks : List Appended) (ds : List Datagram) (idx : ℕ)
    → Marked (apply_actions c (effects ks ds)).slaves idx
      ↔ (Marked c.slaves idx ⊎ ((idx < length c.slaves) × Reported ks ds idx))
unfolding apply_actions effects Marks
Marked-apply_actions c [] ds idx = (λ h. inl h, λ h. elim h [ inl m ↦ m | inr p ↦ absurd p.1 ])
Marked-apply_actions c (k ∷ ks) [] idx =
    (λ h. inl h, λ h. elim h [ inl m ↦ m | inr p ↦ absurd p.1 ])
Marked-apply_actions c (k ∷ ks) (d ∷ ds) idx =
    let a = decode_appended k (reply_of d) in
    let one = Marked-apply_one c a idx in
    let later = Marked-apply_actions (apply_one c a) ks ds idx in
    let same = length-apply_one c a in
    (
      λ h. elim (later.0 h) [
        | inr p ↦ inr (omega (arith, p.0), inr p.1)
        | inl m ↦ elim (one.0 m) [
          | inl m' ↦ inl m'
          | inr p ↦ inr (p.1, inl (decode-SaysOp k d idx p.0))
        ]
      ],
      λ h. later.1 (elim h [
        | inl m ↦ inl (one.1 (inl m))
        | inr p ↦ elim p.1 [
          | inl s ↦ inl (one.1 (inr (SaysOp-decode k d idx s, p.0)))
          | inr r ↦ inr (omega (arith, p.0), r)
        ]
      ]),
    )

gate_operational-slaves : (c : Cyclic) → (gate_operational c).slaves ≡ c.slaves
unfolding gate_operational
gate_operational-slaves c = ground arith

gate_priming-slaves : (c : Cyclic) (wkc : ℕ) → (gate_priming c wkc).slaves ≡ c.slaves
unfolding gate_priming
gate_priming-slaves c wkc = refl

-- On a frame that holds one reply for each appended datagram, the engine counts a slave in OP
-- exactly if it did so before, or if the frame has the reply of a status read of that slave that the
-- slave processed, with the state OP and without the error bit.
pub process-marks :
    (c : Cyclic) (len next : ℕ) (lrw : Reply) (ds : List Datagram) (idx : ℕ)
    → parse_at (take len c.rx) frame_header_size ≡ some (lrw, next)
    → length ds ≡ length c.appended
    → Decodes (take len c.rx) next ds
    → Marked (process c len).slaves idx
      ↔ (Marked c.slaves idx ⊎ ((idx < length c.slaves) × Reported c.appended ds idx))
process-marks c len next lrw ds idx e size dec =
    let c' : Cyclic = record c { domain = (apply_reply c.domain lrw).0 } in
    let gated = gate_priming c' lrw.working_counter in
    let slaves : (process c len).slaves ≡ (apply_actions gated (effects c.appended ds)).slaves =
      ap (λ x. x.slaves) (process_lem c len next lrw e)
      ∙ gate_operational-slaves (apply_actions gated (walk c.appended (take len c.rx) next))
      ∙ ap (λ actions. (apply_actions gated actions).slaves)
          (walk-Decodes c.appended ds (take len c.rx) next size dec) in
    let marks = Marked-apply_actions gated c.appended ds idx in
    subst
      (λ ss.
        Marked ss idx
        ↔ (Marked c.slaves idx ⊎ ((idx < length c.slaves) × Reported c.appended ds idx)))
      (sym slaves)
      (subst
        (λ ss.
          Marked (apply_actions gated (effects c.appended ds)).slaves idx
          ↔ (Marked ss idx ⊎ ((idx < length ss) × Reported c.appended ds idx)))
        (gate_priming-slaves c' lrw.working_counter) marks)
