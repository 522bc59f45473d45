-- ===== src/Datagram/Wire.antt =====
-- The wire form of src/ethercat/datagram.rs as a specification: one datagram after another, each
-- but the last with its "more follows" bit, and what a reader takes from each of them.
use rtic_ecmaster.Base.{
  ℕ, ◌+◌, ◌<◌, ◌≡◌, Bool, true, false, some, List, [], ◌∷◌, ◌++◌, if◌then◌else◌, length, le16,
}
use rtic_ecmaster.Datagram.{Reply, parse_at}

pub record Datagram : Type 0 where
  pub command : ℕ
  pub index : ℕ
  pub adp : ℕ
  pub ado : ℕ
  pub payload : List ℕ
  pub working_counter : ℕ

-- Every field fits its place on the wire.
pub record Fits (d : Datagram) : Type 0 where
  pub command_byte : d.command < 256
  pub index_byte : d.index < 256
  pub payload_length : length d.payload < 2048
  pub counter_word : d.working_counter < 65536

abbrev pub Short : Datagram → Type 0
Short d = length d.payload < 2048

abbrev pub len_word : Bool → Datagram → ℕ
len_word more d = length d.payload + (if more then 32768 else 0)

abbrev pub header : Bool → Datagram → List ℕ
header more d =
    d.command ∷ d.index ∷ (le16 d.adp ++ (le16 d.ado ++ (le16 (len_word more d) ++ (0 ∷ 0 ∷ []))))

abbrev pub encode : Bool → Datagram → List ℕ
encode more d = header more d ++ (d.payload ++ le16 d.working_counter)

abbrev pub encode_all : List Datagram → List ℕ
encode_all [] = []
encode_all (d ∷ []) = encode false d
encode_all (d ∷ e ∷ ds) = encode true d ++ encode_all (e ∷ ds)

abbrev pub reply_of : Datagram → Reply
reply_of d = record {
  command = d.command;
  index = d.index;
  working_counter = d.working_counter;
  payload = d.payload;
}

-- Reading from `off` gives the replies of these datagrams, and 0 behind the last.
abbrev pub Decodes : List ℕ → ℕ → List Datagram → Type 0
Decodes frame off [] = off ≡ 0
Decodes frame off (d ∷ ds) =
    (next : ℕ) × (0 < off) × (parse_at frame off ≡ some (reply_of d, next)) × Decodes frame next ds
