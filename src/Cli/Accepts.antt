-- ===== src/Cli/Accepts.antt =====
-- What a command that the parser gives is sure to be.
use rtic_ecmaster.Base.{
  if_holds, ℕ, ◌≤◌, ◌<◌, ◌≡◌, ◌^◌, inl, inr, refl, arith, Bool, true, false, ◌||◌, Option, none,
  some, leb, if◌then◌else◌, List, [], ◌∷◌, length, Bool-cases,
}
use rtic_ecmaster.Cli.Text.{
  codes, is_empty, trim, trim_start, trim_end, split_whitespace, eq_ignore_ascii_case,
}
use rtic_ecmaster.Cli.Numbers.{parse_uint, parse_int}
use rtic_ecmaster.Cli.Range.{parse_int-Below}
use rtic_ecmaster.Cli.{fail, SdoType, Command, nothing, states, upload, Opts, says}
use rtic_ecmaster.Cli.Parse.{
  parse_start, parse_monitor, parse_pd, al_state_from_name, states_with, parse_states, at_most,
  type_named, encode_value, usage_upload, usage_download, usage_states, usage_pd, usage_monitor,
  sdo_args, upload_with, download_with, parse_sdo, command_of, first_token, parse,
}
use rtic_ecmaster.Cli.WellFormed.{
  IsType, MaybeType, IsTarget, IsWellFormed, fitted-le, fail-IsWellFormed, Each,
  with_opts-IsWellFormed, with_some-IsWellFormed,
}
use rtic_ecmaster.Cli.Fields.{
  start_with-IsWellFormed, Each-Below, at_most-Each, type_named-Each, al_state_from_name-Each,
  encode_value-Each, Encodes,
}

sdo_args-IsWellFormed :
    (o : Opts) (i s : List ℕ) (f : ℕ → ℕ → Option SdoType → Command)
    → ((index subindex : ℕ) (ty : Option SdoType)
        → index ≤ 65535
        → subindex ≤ 255
        → MaybeType ty
        → IsWellFormed (f index subindex ty))
    → IsWellFormed (sdo_args o i s f)
sdo_args-IsWellFormed o i s f k =
    with_some-IsWellFormed (λ (v : ℕ). v ≤ 65535) (at_most 65535 (parse_uint i)) "invalid index" _
      (at_most-Each 65535 (parse_uint i))
      λ index hi.
        with_some-IsWellFormed (λ (v : ℕ). v ≤ 255) (at_most 255 (parse_uint s)) "invalid subindex"
          _ (at_most-Each 255 (parse_uint s))
          λ subindex hs.
            with_some-IsWellFormed MaybeType (type_named o.ty) "unknown type; see 'help'" _
              (type_named-Each o.ty) (λ ty ht. k index subindex ty hi hs ht)

Each-IsType : (ty : Option SdoType) → MaybeType ty → Each IsType ty
Each-IsType (some t) h = h
Each-IsType none h = tt

-- The parsers of the commands.
upload_with-IsWellFormed :
    (o : Opts) (slave : ℕ) (args : List (List ℕ))
    → slave < 65536
    → IsWellFormed (upload_with o slave args)
unfolding IsWellFormed
upload_with-IsWellFormed o slave (i ∷ s ∷ []) h =
    sdo_args-IsWellFormed o i s (λ index subindex ty. upload slave index subindex ty)
      (λ index subindex ty hi hs ht. (h, omega arith, omega arith, ht))
upload_with-IsWellFormed o slave [] h = fail-IsWellFormed usage_upload
upload_with-IsWellFormed o slave (i ∷ []) h = fail-IsWellFormed usage_upload
upload_with-IsWellFormed o slave (i ∷ s ∷ v ∷ r) h = fail-IsWellFormed usage_upload

download_with-IsWellFormed :
    (o : Opts) (slave : ℕ) (args : List (List ℕ))
    → slave < 65536
    → IsWellFormed (download_with o slave args)
unfolding IsWellFormed
download_with-IsWellFormed o slave (i ∷ s ∷ v ∷ []) h =
    sdo_args-IsWellFormed o i s _ λ index subindex ty hi hs ht.
      with_some-IsWellFormed IsType ty "download requires -t<type>" _ (Each-IsType ty ht) λ t typed.
        with_some-IsWellFormed (Encodes t) (encode_value t v) "invalid value for type" _
          (encode_value-Each t v)
          λ e coded. (h, omega arith, omega arith, typed, coded.0, coded.1, coded.2)
download_with-IsWellFormed o slave [] h = fail-IsWellFormed usage_download
download_with-IsWellFormed o slave (i ∷ []) h = fail-IsWellFormed usage_download
download_with-IsWellFormed o slave (i ∷ s ∷ []) h = fail-IsWellFormed usage_download
download_with-IsWellFormed o slave (i ∷ s ∷ v ∷ w ∷ r) h = fail-IsWellFormed usage_download

parse_sdo-IsWellFormed :
    (toks : List (List ℕ)) (is_download : Bool) → IsWellFormed (parse_sdo toks is_download)
unfolding parse_sdo
parse_sdo-IsWellFormed toks is_download = with_opts-IsWellFormed toks _ λ o h.
    with_some-IsWellFormed (λ (k : ℕ). k < 65536) o.position "requires -p<pos>" _
      (Each-Below 65536 o.position h)
      λ slave g.
        if_holds IsWellFormed is_download (λ _. download_with-IsWellFormed o slave o.args g)
          (upload_with-IsWellFormed o slave o.args g)

states_with-IsWellFormed :
    (slave : ℕ) (args : List (List ℕ)) → slave < 65536 → IsWellFormed (states_with slave args)
unfolding IsWellFormed
states_with-IsWellFormed slave (name ∷ []) h =
    with_some-IsWellFormed IsTarget (al_state_from_name name) "unknown state (INIT|PREOP|SAFEOP|OP)"
      (states slave) (al_state_from_name-Each name) (λ target t. (h, t))
states_with-IsWellFormed slave [] h = fail-IsWellFormed usage_states
states_with-IsWellFormed slave (name ∷ v ∷ r) h = fail-IsWellFormed usage_states

parse_states-IsWellFormed : (toks : List (List ℕ)) → IsWellFormed (parse_states toks)
unfolding parse_states
parse_states-IsWellFormed toks = with_opts-IsWellFormed toks _ λ o h.
    with_some-IsWellFormed (λ (k : ℕ). k < 65536) o.position "states requires -p<pos>" _
      (Each-Below 65536 o.position h) (λ slave g. states_with-IsWellFormed slave o.args g)

parse_pd-IsWellFormed : (toks : List (List ℕ)) → IsWellFormed (parse_pd toks)
unfolding parse_pd IsWellFormed
parse_pd-IsWellFormed [] = (tt, tt)
parse_pd-IsWellFormed (p ∷ []) = (fitted-le 48 p, tt)
parse_pd-IsWellFormed (p ∷ v ∷ []) =
    with_some-IsWellFormed (λ (k : ℕ). k < 2 ^ 64) (parse_int v) "invalid value" _
      (Each-Below (2 ^ 64) (parse_int v) (parse_int-Below v)) (λ n g. (fitted-le 48 p, g))
parse_pd-IsWellFormed (p ∷ v ∷ t ∷ r) = fail-IsWellFormed usage_pd

parse_monitor-IsWellFormed : (toks : List (List ℕ)) → IsWellFormed (parse_monitor toks)
unfolding parse_monitor IsWellFormed
parse_monitor-IsWellFormed [] = tt
parse_monitor-IsWellFormed (t ∷ toks) =
    if_holds IsWellFormed (eq_ignore_ascii_case t (codes "on")) (λ _. tt)
      (if_holds IsWellFormed (eq_ignore_ascii_case t (codes "off")) (λ _. tt)
        (fail-IsWellFormed usage_monitor))

-- A text that is not blank has a word.
trim_end-word :
    (s : List ℕ) → is_empty (trim_end s) ≡ false → is_empty (split_whitespace (trim_end s)) ≡ false
unfolding trim_end split_whitespace
trim_end-word [] h = absurd cc
trim_end-word (c ∷ cs) h = ground (arith, trim_end-word cs)

parse_start-IsWellFormed : (toks : List (List ℕ)) → IsWellFormed (parse_start toks)
unfolding parse_start
parse_start-IsWellFormed toks =
    with_opts-IsWellFormed toks _ (λ o h. start_with-IsWellFormed o.rate o h)

command_of-IsWellFormed : (t : List ℕ) (toks : List (List ℕ)) → IsWellFormed (command_of t toks)
unfolding IsWellFormed
command_of-IsWellFormed t toks =
    if_holds IsWellFormed (says t "help" || says t "?") (λ _. tt)
      (if_holds IsWellFormed (says t "slaves") (λ _. tt)
        (if_holds IsWellFormed (says t "status" || says t "info") (λ _. tt)
          (if_holds IsWellFormed (says t "rescan") (λ _. tt)
            (if_holds IsWellFormed (says t "states" || says t "state")
              (λ _. parse_states-IsWellFormed toks)
              (if_holds IsWellFormed (says t "upload" || says t "up")
                (λ _. parse_sdo-IsWellFormed toks false)
                (if_holds IsWellFormed (says t "download" || says t "down")
                  (λ _. parse_sdo-IsWellFormed toks true)
                  (if_holds IsWellFormed (says t "start") (λ _. parse_start-IsWellFormed toks)
                    (if_holds IsWellFormed (says t "stop") (λ _. tt)
                      (if_holds IsWellFormed (says t "stats") (λ _. tt)
                        (if_holds IsWellFormed (says t "monitor" || says t "mon")
                          (λ _. parse_monitor-IsWellFormed toks)
                          (if_holds IsWellFormed (says t "pdos") (λ _. tt)
                            (if_holds IsWellFormed (says t "pd") (λ _. parse_pd-IsWellFormed toks)
                              (if_holds IsWellFormed (says t "host") (λ _. tt)
                                (if_holds IsWellFormed (says t "crashlog") (λ _. tt)
                                  (if_holds IsWellFormed (says t "crashclear") (λ _. tt)
                                    (fail-IsWellFormed
                                      "unknown command; type 'help'"))))))))))))))))

-- For every line the parser gives a command, with no access past the tokens, and the command is
-- well formed: slaves and indexes fit 16 bits and subindexes 8, a target is one of the four AL
-- states, a rate is within 50 and 8000 Hz, a download has the four bytes of its buffer and the
-- length of its type, and every text fits its buffer.
pub parse-IsWellFormed : (line : List ℕ) → (c : Command) × (parse line ≡ some c) × IsWellFormed c
unfolding parse IsWellFormed
parse-IsWellFormed line = parsed (trim line) (λ words. trim_end-word (trim_start line) words)
  where
    first :
        (toks : List (List ℕ))
        → is_empty toks ≡ false
        → (c : Command) × (first_token toks ≡ some c) × IsWellFormed c
    first [] h = absurd cc
    first (t ∷ toks) h = (command_of t toks, refl, command_of-IsWellFormed t toks)

    parsed :
        (s : List ℕ)
        → (is_empty s ≡ false → is_empty (split_whitespace s) ≡ false)
        → (c : Command) × ((if is_empty s
              then some nothing
              else if leb (length (split_whitespace s)) 16
              then first_token (split_whitespace s)
              else some (fail "too many arguments"))
            ≡ some c)
          × IsWellFormed c
    parsed s h = elim (Bool-cases (is_empty s)) [
      | inl blank ↦ rw blank (nothing, refl, tt)
      | inr words ↦ rw words (
          if_holds (λ (o : Option Command). (c : Command) × (o ≡ some c) × IsWellFormed c)
            (leb (length (split_whitespace s)) 16) (λ _. first (split_whitespace s) (h words))
            (fail "too many arguments", refl, fail-IsWellFormed "too many arguments"))
    ]
