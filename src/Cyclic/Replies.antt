-- ===== src/Cyclic/Replies.antt =====
-- How the engine reads the appended replies: which datagram of the frame has which effect.
use rtic_ecmaster.Base.{
  ℕ, ◌≡◌, ◌≢◌, refl, ap, ◌↔◌, ◌⊎◌, arith, true, false, List, [], ◌∷◌, ◌==◌, length, byte_at,
}
use rtic_ecmaster.Datagram.{Reply}
use rtic_ecmaster.Datagram.Wire.{Datagram, reply_of, Decodes}
use rtic_ecmaster.Cyclic.{
  Appended, control, dc_armw, dc_diff, al_poll, status, AppliedReply, nothing, fault, op_reached,
  al_error, al_nibble, al_op, decode_appended, walk,
}

-- The effects of replies paired with the appended datagrams in order.
unfoldable pub effects : List Appended → List Datagram → List AppliedReply
effects [] ds = []
effects (k ∷ ks) [] = []
effects (k ∷ ks) (d ∷ ds) = decode_appended k (reply_of d) ∷ effects ks ds

-- On a frame that holds one reply for each appended datagram, the walk decodes every reply with the
-- kind of the datagram it answers, in order.
pub walk-Decodes :
    (kinds : List Appended) (ds : List Datagram) (frame : List ℕ) (next : ℕ)
    → length ds ≡ length kinds
    → Decodes frame next ds
    → walk kinds frame next ≡ effects kinds ds
unfolding walk effects
walk-Decodes [] ds frame next e dec = refl
walk-Decodes (k ∷ kinds) [] frame next e dec = absurd (omega arith)
walk-Decodes (k ∷ kinds) (d ∷ ds) frame next e (next', positive, parsed, dec) =
    rw (next_ne, parsed)
      (ap (◌∷◌ (decode_appended k (reply_of d)))
        (walk-Decodes kinds ds frame next' (omega arith) dec))
  where
    next_ne : (next == 0) ≡ false
    next_ne = ground arith

-- A reply whose working counter is 0 has no effect.
pub decode_appended-unreached :
    (k : Appended) (dg : Reply) → dg.working_counter ≡ 0 → decode_appended k dg ≡ nothing
unfolding decode_appended
decode_appended-unreached control dg h = refl
decode_appended-unreached _ dg h = ground arith

-- What a reply that marks a slave says: it answers the status read of that slave, was processed by
-- the slave, and shows OP without an error.
pub decode_appended-op_reached :
    (k : Appended) (dg : Reply) {idx : ℕ}
    → decode_appended k dg ≡ op_reached idx
    → (k ≡ status idx)
      × (dg.working_counter ≢ 0)
      × (al_error (byte_at dg.payload 0) ≡ false)
      × (al_nibble (byte_at dg.payload 0) ≡ al_op)
unfolding decode_appended
decode_appended-op_reached control dg h = cc
decode_appended-op_reached dc_armw dg h = cc
decode_appended-op_reached dc_diff dg h = ground arith
decode_appended-op_reached al_poll dg h = ground arith
decode_appended-op_reached (status i) dg h = ground arith

-- A poll reply faults the engine exactly if it was processed by a slave and shows an error or a
-- state other than OP.
pub decode_appended-al_poll :
    (dg : Reply)
    → (decode_appended al_poll dg ≡ fault) ↔ (
        (dg.working_counter ≢ 0)
        × ((al_error (byte_at dg.payload 0) ≡ true) ⊎ (al_nibble (byte_at dg.payload 0) ≢ al_op)))
unfolding decode_appended
decode_appended-al_poll dg = (λ h. ground arith, λ h. ground arith)
