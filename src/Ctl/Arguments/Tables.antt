-- ===== src/Ctl/Arguments/Tables.antt =====
-- Which commands the command line of src/ctl_interface/main.cpp can end with.
use ssyncd.Common.{
  ℕ, zero, suc, ◌≡◌, ◌≢◌, ◌∙◌, sym, ap, refl, Bool, true, false, List, [], ◌∷◌, ◌⊎◌, arith, inl,
  inr,
}
use ssyncd.Common.Bytes.{Bytes}
use ssyncd.Ctl.Command.{
  CommandId, CommandPkt, void, start_http_sync, stop_http_sync, clear_http, write_http,
  stop_recent_sync, start_recent_sync, clear_recent, clear_recent_table, write_recent, count_recent,
  count_http, ctl_error, str_message, rsync, other_command,
}
use ssyncd.Ctl.Arguments.{
  Word, help, write, clear, quit, start, stop, table, count, show, port, address, switch, other,
  word_of, Turn, exits, goes_on, Parsed, exited, parsed, take_service, take_start, take_table,
  take_show, take_port, take_address, take_switch, take_word, take_option, parse_from, is_void,
  parse_arguments, void_command,
}

-- A command that the loop may have chosen so far.
is_chosen : CommandId → Bool
is_chosen clear_recent_table = false
is_chosen ctl_error = false
is_chosen str_message = false
is_chosen rsync = false
is_chosen (other_command n) = false
is_chosen _ = true

Turn-cases :
    (t : Turn)
    → ((success : Bool) × (t ≡ exits success)) ⊎ ((x : CommandPkt) × (n : ℕ) × (t ≡ goes_on x n))
Turn-cases (exits success) = inl (success, refl)
Turn-cases (goes_on x n) = inr (x, n, refl)

turn_chosen : Turn → Bool
turn_chosen (exits success) = true
turn_chosen (goes_on x n) = is_chosen x.command

parsed_chosen : Parsed → Bool
parsed_chosen (exited success) = true
parsed_chosen (parsed x) = is_chosen x.command

module _ (on_http on_recent : CommandId) (x : CommandPkt) (h : is_chosen x.command ≡ true)
    (h1 : is_chosen on_http ≡ true) (h2 : is_chosen on_recent ≡ true) where
  take_service_chosen :
      (rest : List Bytes) → turn_chosen (take_service on_http on_recent x rest) ≡ true
  unfolding take_service turn_chosen
  take_service_chosen [] = refl
  take_service_chosen (value ∷ rest) = ground arith

  take_start_chosen : (rest : List Bytes) → turn_chosen (take_start on_http on_recent x rest) ≡ true
  unfolding take_start turn_chosen
  take_start_chosen [] = refl
  take_start_chosen (value ∷ []) = ground arith
  take_start_chosen (value ∷ farm ∷ rest) = ground arith

module _ (x : CommandPkt) (h : is_chosen x.command ≡ true) where
  take_table_chosen : (rest : List Bytes) → turn_chosen (take_table x rest) ≡ true
  unfolding take_table turn_chosen is_chosen
  take_table_chosen [] = refl
  take_table_chosen (value ∷ rest) = ground arith

  take_show_chosen : (rest : List Bytes) → turn_chosen (take_show x rest) ≡ true
  unfolding take_show turn_chosen is_chosen
  take_show_chosen [] = refl
  take_show_chosen (value ∷ rest) = ground arith

  take_port_chosen : (rest : List Bytes) → turn_chosen (take_port x rest) ≡ true
  unfolding take_port turn_chosen
  take_port_chosen [] = h
  take_port_chosen (value ∷ rest) = ground arith

  take_switch_chosen : (rest : List Bytes) → turn_chosen (take_switch x rest) ≡ true
  unfolding take_switch turn_chosen is_chosen
  take_switch_chosen [] = refl
  take_switch_chosen (value ∷ rest) = ground arith

  take_address_chosen : (rest : List Bytes) → turn_chosen (take_address x rest) ≡ true
  unfolding take_address turn_chosen
  take_address_chosen [] = h
  take_address_chosen (value ∷ rest) = h

  take_word_chosen : (rest : List Bytes) (w : Word) → turn_chosen (take_word x rest w) ≡ true
  unfolding take_word turn_chosen is_chosen
  take_word_chosen rest help = refl
  take_word_chosen rest write = take_service_chosen write_http write_recent x h refl refl rest
  take_word_chosen rest clear = take_service_chosen clear_http clear_recent x h refl refl rest
  take_word_chosen rest quit = refl
  take_word_chosen rest start =
      take_start_chosen start_http_sync start_recent_sync x h refl refl rest
  take_word_chosen rest stop = take_start_chosen stop_http_sync stop_recent_sync x h refl refl rest
  take_word_chosen rest table = take_table_chosen rest
  take_word_chosen rest count = take_service_chosen count_http count_recent x h refl refl rest
  take_word_chosen rest show = take_show_chosen rest
  take_word_chosen rest port = take_port_chosen rest
  take_word_chosen rest address = take_address_chosen rest
  take_word_chosen rest switch = take_switch_chosen rest
  take_word_chosen rest other = h

parse_from_chosen :
    (x : CommandPkt) (passed : ℕ) (args : List Bytes)
    → is_chosen x.command ≡ true
    → parsed_chosen (parse_from x passed args) ≡ true
unfolding parse_from take_option parsed_chosen turn_chosen
parse_from_chosen x passed [] h = h
parse_from_chosen x (suc passed) (option ∷ rest) h = parse_from_chosen x passed rest h
parse_from_chosen x zero (option ∷ rest) h = elim (Turn-cases (take_word x rest (word_of option))) [
  | inl (success, e) ↦ rw (e, parse_from, take_option, parsed_chosen) refl
  | inr (x', n, e) ↦
      let chosen : turn_chosen (goes_on x' n) ≡ true =
        ap turn_chosen (sym e) ∙ take_word_chosen x h rest (word_of option) in
      rw (e, parse_from, take_option, parsed_chosen) (parse_from_chosen x' n rest chosen)
]

-- The daemon answers a command that is none of these in some other way than "Command no found".
abbrev pub IsObeyed : CommandId → Type 0
IsObeyed void = ⊥
IsObeyed ctl_error = ⊥
IsObeyed str_message = ⊥
IsObeyed rsync = ⊥
IsObeyed (other_command n) = ⊥
IsObeyed _ = Unit

obeyed :
    (c : CommandId) → is_chosen c ≡ true → is_void c ≡ false → IsObeyed c × (c ≢ clear_recent_table)
unfolding is_chosen is_void
obeyed void h v = cc
obeyed clear_recent_table h v = cc
obeyed ctl_error h v = cc
obeyed str_message h v = cc
obeyed rsync h v = cc
obeyed (other_command n) h v = cc
obeyed c h v = (tt, λ e. cc)

-- Whatever the arguments are, a packet that the control program sends carries a command that the
-- daemon obeys. No arguments make it CLEAR_RECENT_TABLE.
pub parse_arguments-IsObeyed :
    (memory : ℕ) (args : List Bytes) (x : CommandPkt)
    → parse_arguments memory args ≡ parsed x
    → IsObeyed x.command × (x.command ≢ clear_recent_table)
unfolding parse_arguments parsed_chosen is_chosen
parse_arguments-IsObeyed memory args x e =
    let chosen = parse_from_chosen (void_command memory) 0 args refl in
    obeyed x.command (ground (arith, e, chosen)) (ground (arith, e))
