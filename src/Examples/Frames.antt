-- ===== src/Examples/Frames.antt =====
-- The frames of one small request on concrete buffers.
use rtic_ecmaster.Base.{
  ℕ, ◌≡◌, refl, arith, some, List, [], ◌∷◌, ◌++◌, length, take, replicate, All,
}
use rtic_ecmaster.Datagram.{lrw, fprd, build, append, pad_frame}
use rtic_ecmaster.Base.Lists.{copy_at}
use rtic_ecmaster.Datagram.Wire.{Datagram, Fits, Decodes}
use rtic_ecmaster.Datagram.Frames.{
  request, content, IsFrame, build-IsFrame, IsFrame-Decodes, append-IsFrame,
}

abbrev first : Datagram
first = request 7 lrw 0 0 (1 ∷ 2 ∷ [])

abbrev second : Datagram
second = request 8 fprd 4097 304 (0 ∷ 0 ∷ [])

first-Fits : All Fits (first ∷ [])
first-Fits = ground arith

abbrev room : List ℕ
room = replicate 64 9

abbrev one_frame : List ℕ
one_frame = (content (first ∷ []) ++ replicate 30 0) ++ replicate 18 9

one_frame-IsFrame : IsFrame one_frame 46 (first ∷ [])
one_frame-IsFrame = record {
  padding = replicate 30 0;
  unused = replicate 18 9;
  written = refl;
  sized = refl;
  padded = refl;
}

-- A run: the frame of the request.
build_run : build room 7 lrw 0 0 (1 ∷ 2 ∷ []) ≡ some (one_frame, 46)
unfolding build copy_at pad_frame
build_run = refl

build-IsFrame_example :
    (buf' : List ℕ) × (total : ℕ) × (build room 7 lrw 0 0 (1 ∷ 2 ∷ []) ≡ some (buf', total))
    × IsFrame buf' total (first ∷ [])
    × (length buf' ≡ 64)
build-IsFrame_example =
    build-IsFrame room 7 lrw 0 0 (1 ∷ 2 ∷ []) (omega arith) (omega arith) (omega arith)

IsFrame-Decodes_example : Decodes (take 46 one_frame) 2 (first ∷ [])
IsFrame-Decodes_example = IsFrame-Decodes first [] one_frame-IsFrame (omega arith, tt)

append-IsFrame_example :
    (buf' : List ℕ) × (total : ℕ) × (append one_frame 8 fprd 4097 304 (0 ∷ 0 ∷ [])
      ≡ some (buf', total))
    × IsFrame buf' total (first ∷ second ∷ [])
    × (length buf' ≡ 64)
append-IsFrame_example =
    append-IsFrame one_frame 46 first [] 8 fprd 4097 304 (0 ∷ 0 ∷ []) one_frame-IsFrame
      (omega arith, tt) (omega arith) (omega arith) (omega arith)
