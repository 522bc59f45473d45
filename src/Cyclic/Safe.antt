-- ===== src/Cyclic/Safe.antt =====
-- The safe state of src/ethercat/cyclic.rs: what `apply_drive_control` leaves in the image.
use mathlib.Core.Path.{subst}
use rtic_ecmaster.Base.{
  ℕ, zero, suc, ◌≡◌, ◌⊎◌, refl, sym, ap, arith, Bool, true, false, not, ◌||◌, if◌then◌else◌, List,
  [], ◌∷◌, length, take, overwrite, All,
}
use rtic_ecmaster.Cia402
use rtic_ecmaster.Cia402.{Binding, has_drives}
use rtic_ecmaster.Cia402.Commanded.{WordPin, AllApart, NoneEnabled, step-NoneEnabled, length-step}
use rtic_ecmaster.Domain.{EcDomain, live_image, with_image}
use rtic_ecmaster.HostBridge.{HostBridge, quick_stop_requested}
use rtic_ecmaster.Cyclic.{Cyclic, faulted}
use rtic_ecmaster.Cyclic.Host.{drive_command, apply_drive_control, drive_command-safe}

take-overwrite :
    (n : ℕ) (xs bs : List ℕ) → length bs ≡ length (take n xs) → take n (overwrite xs 0 bs) ≡ bs
take-overwrite zero xs [] h = refl
take-overwrite zero xs (b ∷ bs) h = absurd (omega arith)
take-overwrite (suc n) [] [] h = refl
take-overwrite (suc n) [] (b ∷ bs) h = absurd (omega arith)
take-overwrite (suc n) (x ∷ xs) [] h = absurd (omega arith)
take-overwrite (suc n) (x ∷ xs) (b ∷ bs) h = ap (◌∷◌ b) (take-overwrite n xs bs (omega arith))

live_image-with_image :
    (d : EcDomain) (bytes : List ℕ)
    → length bytes ≡ length (live_image d)
    → live_image (with_image d bytes) ≡ bytes
unfolding live_image with_image
live_image-with_image d bytes h = take-overwrite d.len d.image bytes h

no_drives : (image : List ℕ) (ds : List Binding) → has_drives ds ≡ false → NoneEnabled image ds
unfolding has_drives
no_drives image [] h = tt
no_drives image (d ∷ ds) h = absurd cc

-- The tests of `apply_drive_control`.
tested :
    (valid drives : Bool) (x y : Cyclic) (P : Cyclic → Type 0)
    → valid ≡ true
    → (drives ≡ false → P x)
    → P y
    → P (if not valid || not drives then x else y)
tested true true x y P h k m = m
tested true false x y P h k m = k refl
tested false drives x y P h k m = absurd cc

-- The reasons of a safe state.
abbrev pub MustStop : Cyclic → HostBridge → Bool → Bool → Type 0
MustStop c host host_timeout underrun =
    (quick_stop_requested host ≡ true)
    ⊎ ((host_timeout ≡ true) ⊎ ((underrun ≡ true) ⊎ (c.phase ≡ faulted)))

-- Once the host has sent a frame, in a safe state, whatever its cause and whatever the image held,
-- the drive control of a cycle leaves the word "enable operation" in no drive's controlword, as long
-- as the controlwords are unsigned words inside the image that share no byte.
pub apply_drive_control-safe :
    (c : Cyclic) (host : HostBridge) (host_timeout underrun : Bool)
    → host.out_valid ≡ true
    → MustStop c host host_timeout underrun
    → All (WordPin (length (live_image c.domain))) c.cia402
    → AllApart c.cia402
    → NoneEnabled (live_image (apply_drive_control c host host_timeout underrun).domain) c.cia402
unfolding apply_drive_control
apply_drive_control-safe c host host_timeout underrun valid safe words apart =
    let cmd = drive_command c host host_timeout underrun in
    let image = (Cia402.step c.cia402 (live_image c.domain) cmd).1 in
    let never =
      step-NoneEnabled c.cia402 (live_image c.domain) cmd
        (λ sw fr. drive_command-safe c host host_timeout underrun sw fr safe) words apart in
    let live =
      live_image-with_image c.domain image (length-step c.cia402 (live_image c.domain) cmd) in
    tested host.out_valid (has_drives c.cia402) c _
      (λ x. NoneEnabled (live_image x.domain) c.cia402) valid
      (no_drives (live_image c.domain) c.cia402)
      (subst (λ im. NoneEnabled im c.cia402) (sym live) never)
