-- ===== src/Daemon/Start.antt =====
-- What src/main.cpp starts, by its options.
use ssyncd.Common.{
  ℕ, ◌≡◌, ◌≢◌, refl, Bool, true, ◌==◌, Option, none, some, List, [], ◌∷◌, is_empty, arith,
  if◌then◌else◌, Bool-cases, inl, inr, ◌⊎◌,
}
use ssyncd.Common.Bytes.{Bytes}
use ssyncd.Common.Decimal.{atoi}
use ssyncd.Sync.Controller.{
  Controller, WorkerMode, System, set_worker_mode, start, handle_command, mode_text, answered,
  new_worker,
}
use ssyncd.Sync.Controller
use ssyncd.Daemon.{
  Opt, RunCommand, no_command, master, backup, test, Options, default_options, Parsed, options,
  returns, started_as, take_opt, take_opts, runs, start_as, new_controller, main,
}

-- What an option sets.
pub address_of : Opt → Option Bytes
address_of o = if o.letter == b'a' then some o.optarg else none

pub port_of : Opt → Option ℕ
port_of o = if o.letter == b'p' then some (atoi o.optarg) else none

pub mode_of : Opt → Option RunCommand
mode_of o =
    if o.letter == b'M'
    then some master
    else if o.letter == b'B'
    then some backup
    else if o.letter == b't'
    then some test
    else none

abbrev or_else {ℓ} : {A : Type ℓ} → Option A → A → A
or_else none d = d
or_else (some x) d = x

-- What the last option sets that sets it, or the default.
pub last {ℓ} : {A : Type ℓ} → (Opt → Option A) → A → List Opt → A
last f d [] = d
last f d (o ∷ opts) = last f (or_else (f o) d) opts

-- These options have these settings.
abbrev AreSet : List Opt → Options → Options → Type 0
AreSet opts s s' =
    (s'.start_mode ≡ last mode_of s.start_mode opts)
    × (s'.server_port ≡ last port_of s.server_port opts)
    × (s'.server_address ≡ last address_of s.server_address opts)

take_opt_sets :
    (o : Opt) (s s' : Options)
    → take_opt o s ≡ options s'
    → (s'.start_mode ≡ or_else (mode_of o) s.start_mode)
      × (s'.server_port ≡ or_else (port_of o) s.server_port)
      × (s'.server_address ≡ or_else (address_of o) s.server_address)
unfolding take_opt mode_of port_of address_of
take_opt_sets o s s' e = ground arith

Parsed-cases :
    (t : Parsed) → ((success : Bool) × (t ≡ returns success)) ⊎ ((s : Options) × (t ≡ options s))
Parsed-cases (returns success) = inl (success, refl)
Parsed-cases (options s) = inr (s, refl)

take_opts_sets :
    (opts : List Opt) (s s' : Options) → take_opts opts s ≡ options s' → AreSet opts s s'
unfolding take_opts last
take_opts_sets [] s s' e = ground arith
take_opts_sets (o ∷ opts) s s' e = elim (Parsed-cases (take_opt o s)) [
  | inl (success, r) ↦ absurd (ground (arith, r, e))
  | inr (s1, r) ↦
      let (m, p, a) = take_opt_sets o s s1 r in
      rw (← m, ← p, ← a) (take_opts_sets opts s1 s' (ground (arith, r, e)))
]

-- The controller runs in this mode, with this port and address, and so does its worker, with neither
-- tables nor sessions.
pub record IsStarted (port : ℕ) (address : Bytes) (mode : WorkerMode) (c : Controller)
    : Type 0 where
  pub current : c.current_mode ≡ mode
  pub running : c.is_running ≡ true
  pub thread : c.command_thread ≡ true
  pub worker : c.sync_worker ≡ some (record new_worker { is_running = true })
  pub port_set : c.server_port ≡ port
  pub address_set : c.server_address ≡ address

-- The modes that start a controller.
abbrev pub Starts : RunCommand → ℕ → Bytes → Controller → Type 0
Starts no_command port address c = ⊥
Starts master port address c = IsStarted port address Controller.master c
Starts backup port address c = (address ≢ []) × IsStarted port address Controller.backup c
Starts test port address c = ⊥

set_and_IsStarted :
    (s : Options) (mode : WorkerMode) (c : Controller)
    → ((mode ≡ Controller.master) ⊎ (mode ≡ Controller.backup))
    → started_as (start (set_worker_mode mode (new_controller s))) ≡ runs c
    → IsStarted s.server_port s.server_address mode c
unfolding set_worker_mode start
set_and_IsStarted s mode c (inl h) e = ground (arith, h, e)
set_and_IsStarted s mode c (inr h) e = ground (arith, h, e)

start_as-Starts :
    (mode : RunCommand) (s : Options) (c : Controller)
    → start_as mode s ≡ runs c
    → Starts mode s.server_port s.server_address c
unfolding start_as
start_as-Starts no_command s c e = cc
start_as-Starts master s c e = set_and_IsStarted s Controller.master c (inl refl) e
start_as-Starts backup s c e = elim (Bool-cases (is_empty s.server_address)) [
  | inl y ↦ absurd (ground (arith, y, e))
  | inr n ↦ (
    λ h. ground (arith, n, h),
    set_and_IsStarted s Controller.backup c (inr refl) (ground (arith, n, e)),
  )
]
start_as-Starts test s c e = cc

-- Where main gets as far as running the controller, it runs in the mode of the last of the options
-- -M and -B, and no -t follows that; its port and its address are those of the last -p and -a, or
-- 7777 and none; and a backup has an address. The worker runs and is empty.
pub main-Starts :
    (daemonized : Bool) (opts : List Opt) (c : Controller)
    → main daemonized opts ≡ runs c
    → Starts (last mode_of no_command opts) (last port_of 7777 opts) (last address_of [] opts) c
unfolding main
main-Starts daemonized opts c e = elim (Parsed-cases (take_opts opts default_options)) [
  | inl (success, r) ↦ absurd (ground (arith, r, e))
  | inr (s, r) ↦
      let (m, p, a) = take_opts_sets opts default_options s r in
      rw (← m, ← p, ← a) (start_as-Starts s.start_mode s c (ground (arith, r, e)))
]
