-- ===== src/Console/Typed.antt =====
-- What is typed on the console: lines become commands, and commands requests that end.
use mathlib.Core.Path.{subst}
use rtic_ecmaster.Base.Checked.{◌>>=◌}
use rtic_ecmaster.Base.{
  if_holds, ℕ, ◌≤◌, sym, arith, ◌&&◌, ◌||◌, Option, none, some, List, [], ◌∷◌, ◌++◌, ltb, leb, ◌==◌,
  length, length-append, All,
}
use rtic_ecmaster.Cli.{Command}
use rtic_ecmaster.Cli.Text.{is_empty}
use rtic_ecmaster.Cli.Parse.{parse}
use rtic_ecmaster.Cli.WellFormed.{IsWellFormed}
use rtic_ecmaster.Cli.Accepts.{parse-IsWellFormed}
use rtic_ecmaster.Console.{Console, line_cap, drop_last, queue, end_line, take_byte, take_bytes}

-- The printable codes.
abbrev pub IsPrintable : ℕ → Type 0
IsPrintable c = (0x20 ≤ c) × (c ≤ 0x7E)

abbrev Queued : Option Command → Type 0
Queued none = Unit {0}
Queued (some cmd) = IsWellFormed cmd

-- The line fits its string, and the command that waits is well formed.
abbrev pub IsValid : Console → Type 0
IsValid c = (length c.line ≤ line_cap) × All IsPrintable c.line × Queued c.slot

length-drop_last : (s : List ℕ) → length (drop_last s) ≤ length s
unfolding drop_last
length-drop_last [] = omega arith
length-drop_last (c ∷ []) = omega arith
length-drop_last (c ∷ d ∷ s) = omega (arith, length-drop_last (d ∷ s))

All-drop_last : (s : List ℕ) → All IsPrintable s → All IsPrintable (drop_last s)
unfolding drop_last
All-drop_last [] h = h
All-drop_last (c ∷ []) h = tt
All-drop_last (c ∷ d ∷ s) h = (h.0, All-drop_last (d ∷ s) h.1)

All-push : (s : List ℕ) (c : ℕ) → All IsPrintable s → IsPrintable c → All IsPrintable (s ++ c ∷ [])
All-push [] c h p = (p, tt)
All-push (d ∷ s) c h p = (h.0, All-push s c h.1 p)

-- A result that is there and is valid.
abbrev pub Goes : Option Console → Type 0
Goes none = ⊥
Goes (some c) = IsValid c

queue-Queued :
    (slot : Option Command) (cmd : Command)
    → Queued slot
    → IsWellFormed cmd
    → Queued (queue slot cmd)
queue-Queued none cmd q w = w
queue-Queued (some old) cmd q w = q

end_line-Goes : (c : Console) (line : List ℕ) → Queued c.slot → Goes (end_line c (parse line))
end_line-Goes c line q =
    let (cmd, parsed, good) = parse-IsWellFormed line in
    subst (λ o. Goes (end_line c o)) (sym parsed) (omega arith, tt, queue-Queued c.slot cmd q good)

take_byte-Goes : (c : Console) (b : ℕ) → IsValid c → Goes (take_byte c b)
unfolding take_byte
take_byte-Goes c b (fits, printable, queued) =
    if_holds Goes (b == 13 || b == 10)
      (λ _.
        if_holds Goes (is_empty c.line) (λ _. (fits, printable, queued))
          (end_line-Goes c c.line queued))
      (if_holds Goes (b == 0x08 || b == 0x7F)
        (λ _. (omega (arith, length-drop_last c.line), All-drop_last c.line printable, queued))
        (if_holds Goes (leb 0x20 b && leb b 0x7E && ltb (length c.line) line_cap)
          (λ pushed. (
            ground (arith, length-append c.line (b ∷ [])),
            All-push c.line b printable (ground arith, ground arith),
            queued,
          ))
          (fits, printable, queued)))

then-Goes :
    (o : Option Console) (f : Console → Option Console)
    → Goes o
    → ((c : Console) → IsValid c → Goes (f c))
    → Goes (o >>= f)
then-Goes (some c) f h k = k c h
then-Goes none f h k = absurd h

-- Whatever is typed, no byte makes the parser panic, the line stays within its string and keeps to
-- printable characters, and the command that waits for the worker is well formed.
pub take_bytes-Goes : (c : Console) (bs : List ℕ) → IsValid c → Goes (take_bytes c bs)
unfolding take_bytes
take_bytes-Goes c [] v = v
take_bytes-Goes c (b ∷ bs) v =
    then-Goes (take_byte c b) (λ c'. take_bytes c' bs) (take_byte-Goes c b v)
      (λ c' v'. take_bytes-Goes c' bs v')
