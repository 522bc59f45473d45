-- ===== src/Scan/Published.antt =====
-- What every handler of the scan hands over.
use mathlib.Core.Path.{subst}
use rtic_ecmaster.Base.{
  ℕ, ◌+◌, min, ◌<◌, ◌≡◌, inl, inr, sym, arith, Bool, true, false, ◌&&◌, Option, none, some,
  Bool-cases, List, [], ◌∷◌, ltb, Outcome, ok, err, panic, EcError,
}
use rtic_ecmaster.Slave.{SlaveInfo}
use rtic_ecmaster.Scan.{
  SiiField, vendor, product, revision, rx_mbox, tx_mbox, protocols, Stage, counting, clearing,
  assigning, reading_al, reading_dl, reading_sii, done, ScanFsm, begin_slave, finish_slave,
  apply_sii, counted, cleared, assigned, al_read, dl_read, with_value, max_slaves,
}

-- Slaves at the ring positions from `n` on, each with the station address behind its position.
unfoldable pub NumberedFrom : ℕ → List SlaveInfo → Type 0
NumberedFrom n [] = Unit {0}
NumberedFrom n (s ∷ ss) = (s.ring_pos ≡ n) × (s.station_addr ≡ n + 1) × NumberedFrom (n + 1) ss

-- The scan works on slave `n`.
abbrev pub At : ScanFsm → ℕ → Type 0
At f n = (f.cur.ring_pos ≡ n) × (f.cur.station ≡ n + 1) × (n < f.count) × (n < max_slaves)

-- The scan has handed over `n` slaves.
abbrev pub Scanning : Stage → ScanFsm → ℕ → Type 0
Scanning counting f n = n ≡ 0
Scanning clearing f n = (n ≡ 0) × (0 < f.count)
Scanning assigning f n = At f n
Scanning reading_al f n = At f n
Scanning reading_dl f n = At f n
Scanning (reading_sii field) f n = At f n
Scanning done f n = n ≡ min f.count max_slaves

-- The same behind a step that may have handed over one more.
abbrev pub Published : Option SlaveInfo → ScanFsm → ℕ → Type 0
Published none f n = Scanning f.stage f n
Published (some info) f n =
    (info.ring_pos ≡ n)
    × (info.station_addr ≡ n + 1)
    × (n < max_slaves)
    × Scanning f.stage f (n + 1)

-- What a step must do.
abbrev pub Goes : ℕ → ScanFsm → Outcome Bool → Type 0
Goes n f o = (b : Bool) → o ≡ ok b → Published f.completed f n × (b ≡ true → f.stage ≡ done)

pub counted-Goes :
    (f : ScanFsm) (n wkc : ℕ) (bytes : List ℕ)
    → f.completed ≡ none
    → n ≡ 0
    → Goes n (counted f wkc bytes).0 (counted f wkc bytes).1
unfolding counted
counted-Goes f n wkc bytes idle h b e = ground arith

pub cleared-Goes :
    (f : ScanFsm) (n wkc : ℕ) (bytes : List ℕ)
    → f.completed ≡ none
    → n ≡ 0
    → 0 < f.count
    → Goes n (cleared f wkc bytes).0 (cleared f wkc bytes).1
unfolding begin_slave
cleared-Goes f n wkc bytes idle h more b e = ground arith

pub assigned-Goes :
    (f : ScanFsm) (n wkc : ℕ) (bytes : List ℕ)
    → f.completed ≡ none
    → At f n
    → Goes n (assigned f wkc bytes).0 (assigned f wkc bytes).1
unfolding assigned
assigned-Goes f n wkc bytes idle h b e = ground arith

pub al_read-Goes :
    (f : ScanFsm) (n wkc : ℕ) (bytes : List ℕ)
    → f.completed ≡ none
    → At f n
    → Goes n (al_read f wkc bytes).0 (al_read f wkc bytes).1
unfolding al_read
al_read-Goes f n wkc bytes idle h b e = ground arith

pub dl_read-Goes :
    (f : ScanFsm) (n wkc : ℕ) (bytes : List ℕ)
    → f.completed ≡ none
    → At f n
    → Goes n (dl_read f wkc bytes).0 (dl_read f wkc bytes).1
unfolding dl_read
dl_read-Goes f n wkc bytes idle h b e = ground arith

pub apply_sii-Goes :
    (field : SiiField) (f : ScanFsm) (n value : ℕ)
    → f.completed ≡ none
    → At f n
    → Published (apply_sii field f value).completed (apply_sii field f value) n
unfolding apply_sii finish_slave begin_slave
apply_sii-Goes vendor f n value idle h = ground arith
apply_sii-Goes product f n value idle h = ground arith
apply_sii-Goes revision f n value idle h = ground arith
apply_sii-Goes rx_mbox f n value idle h = ground arith
apply_sii-Goes tx_mbox f n value idle h = ground arith
apply_sii-Goes protocols f n value idle h =
    elim (Bool-cases (ltb (f.cur.ring_pos + 1) f.count && ltb (f.cur.ring_pos + 1) max_slaves)) [
      | inl e ↦ rw e (ground arith)
      | inr e ↦ rw e (ground arith)
    ]

pub with_value-Goes :
    (field : SiiField) (f : ScanFsm) (n : ℕ) (o : Outcome (Option ℕ))
    → f.completed ≡ none
    → f.stage ≡ reading_sii field
    → At f n
    → Goes n (with_value field f o).0 (with_value field f o).1
with_value-Goes field f n (ok none) idle at h b e = ground arith
with_value-Goes field f n (ok (some value)) idle at h b e =
    (apply_sii-Goes field f n value idle h, λ p. cc)
with_value-Goes field f n (err er) idle at h b e = absurd cc
with_value-Goes field f n panic idle at h b e = absurd cc

pub idle-Goes :
    (f : ScanFsm) (n : ℕ) → f.completed ≡ none → Scanning f.stage f n → Goes n f (ok false)
idle-Goes f n idle h b e = (subst (λ c. Published c f n) (sym idle) h, λ p. absurd cc)

pub err-Goes : (f : ScanFsm) (n : ℕ) (er : EcError) → Goes n f (err er)
err-Goes f n er b e = absurd cc
