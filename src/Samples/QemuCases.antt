-- ===== src/Samples/QemuCases.antt =====
-- The theorems on src/osbench/qemu.py and the guest's target of src/osbench/targets.py at a guest
-- that says "OK" in two pieces, answers a case in two pieces, and does not heed the request to end.
use os_bench.Common.{
  ℕ, ◌+◌, ◌≤◌, String, ◌≡◌, refl, true, false, List, [], ◌∷◌, ◌++◌, none, some, nat_eq,
  if◌then◌else◌, ◌==◌, ◌↔◌, ◌⊎◌, arith,
}
use os_bench.Common.Result.{Result, ok, err, value_error, timeout_error}
use os_bench.Qemu.Profile.{Profile, ProfileValues, profile_of, load_profile}
use os_bench.Qemu.Command.{Launch, RunPaths, build_command, first_existing}
use os_bench.Qemu.Options.{build_command-options, options, values_of, drives}
use os_bench.Qemu.Machine.{
  vm_of, stop, poll, terminate, kill, close_logs, Host, Received, timed_out, chunk, accepts,
  running, exited, killed, opened, closed, Vm, raised, poll,
}
use os_bench.Qemu.Stopping.{IsReleased}
use os_bench.Qemu.Serial.{
  wait_for_serial, connect_unix, connect_rounds, read_rounds, save_log, require_sentinel,
}
use os_bench.Qemu.Agent.{agent_case, result_prefix, result_of}
use os_bench.Qemu.Answering.{Answers, agent_case-Answers}
use os_bench.Qemu.Control.{start, spawn, Disk, boot_launch, boot_check}
use os_bench.Qemu.Booting.{Checks, boot_check-Checks}
use os_bench.Qemu.Qmp.{Line, message, Members, QmpReply, session}
use os_bench.Targets.Guest.{GuestCase, GuestTarget, ensure_run, execute}
use os_bench.Targets.Stopped.{Fail, execute-stopped}
use os_bench.Qemu.Session.{IsSession, session_iff}
use os_bench.Targets.Ownership.{
  LogsFail, after_called, executes, closes, after_call, after_calls, new_target, close-IsReleased,
}

abbrev sentinel : List ℕ
sentinel = 79 ∷ 75 ∷ []

abbrev first_half : List ℕ
first_half = result_prefix ++ 1 ∷ []

abbrev received : ℕ → Received
received m =
    if nat_eq m 3
    then chunk (79 ∷ [])
    else if nat_eq m 4
    then chunk (75 ∷ 10 ∷ [])
    else if nat_eq m 8
    then chunk first_half
    else if nat_eq m 9
    then chunk (2 ∷ 10 ∷ [])
    else timed_out

abbrev host : Host
host = record {
  clock = λ m. m;
  exits = λ m. false;
  socket = λ m path. accepts;
  receives = received;
  saves = λ m. true;
  sends = λ m. true;
  prepares = λ m. true;
  copies = λ m. true;
  opens_stdout = λ m. true;
  opens_stderr = λ m. true;
  records = λ m. true;
  spawns = λ m. true;
  terminates = λ m. false;
  dies = λ m. true;
}

abbrev disk : Disk
disk = record {
  is_file = λ path. true;
  has_program = λ program. true;
  file_name = λ path. path;
  repo_root = "/repo";
  fresh_id = λ m. "r";
  shown = λ n. "1";
}

abbrev values : ProfileValues
values = record {
  binary = none;
  machine = none;
  accelerator = none;
  cpu = none;
  memory_mb = none;
  smp = none;
  firmware_code_candidates = none;
  firmware_code = none;
  firmware_vars_candidates = none;
  firmware_vars = none;
  disk_interface = none;
  network_device = none;
  rng_device = none;
  boot_timeout = some 5;
  case_timeout = none;
  shutdown_timeout = none;
}

abbrev profile : Profile
profile = profile_of "macos_tcg" values

-- the environment's name is used where none is given
load_profile-environment :
    load_profile
      (record { default_profile = none; profiles = some (("a", values) ∷ []) })
      (some "a")
      (some "")
    ≡ ok (profile_of "a" values)
unfolding load_profile
load_profile-environment = refl

abbrev alive : Vm
alive = record {
  moment = 1;
  process = running;
  stdout_handle = opened;
  stderr_handle = opened;
  stray_logs = 0;
  clients = 0;
  buffer = [];
  serial_log = none;
}

abbrev dead : Vm
dead = record alive { process = exited killed; stdout_handle = closed; stderr_handle = closed }

in_time : (m : ℕ) → m + 5 ≤ m + 5
in_time m = ground arith

dead-IsReleased : IsReleased dead
dead-IsReleased = record { process = refl; stdout_handle = refl; stderr_handle = refl }

boot_check-Checks_example :
    Checks host disk profile sentinel
      (boot_launch host disk profile "disk.qcow2" 7 ("payload.iso" ∷ []))
      dead
      (boot_check host disk profile 6 sentinel "disk.qcow2" 7 ("payload.iso" ∷ []) dead)
boot_check-Checks_example =
    boot_check-Checks host disk profile (λ m. refl) sentinel refl 5 in_time "disk.qcow2" 7
      ("payload.iso" ∷ []) dead dead-IsReleased

abbrev decode : List ℕ → Result (List ℕ)
decode [] = err (value_error "nothing")
decode (b ∷ bs) = ok (b ∷ bs)

abbrev awaiting : Vm
awaiting = record alive { moment = 6 }

agent_case-Answers_example :
    Answers decode host "serial" 5 awaiting (agent_case decode host 6 "serial" 5 awaiting)
agent_case-Answers_example = agent_case-Answers decode host 5 "serial" 5 in_time awaiting

-- a reply that comes in two pieces: what is decoded is the first of them
result_of-piece : result_of first_half ≡ some (1 ∷ [])
unfolding result_of
result_of-piece = refl

result_of-whole : result_of (10 ∷ first_half ++ 2 ∷ 10 ∷ []) ≡ some (1 ∷ 2 ∷ [])
unfolding result_of
result_of-whole = refl

abbrev launch : Launch
launch = record {
  image = "disk.qcow2";
  seed = 7;
  snapshot = true;
  install_iso = some "install.iso";
  kernel = none;
  initrd = none;
  append = some "-netdev";
  auxiliary_media = "a.iso" ∷ "b.iso" ∷ [];
}

abbrev paths : RunPaths
paths = record { serial_path = "s"; qmp_path = "q"; vars_path = "v" }

built :
    (command : List String) × (build_command disk.shown disk.is_file profile launch paths
      ≡ ok command)
unfolding build_command
built = (_, refl)

build_command-options_example :
    let read = options built.0 in
    (values_of "-netdev" read ≡ "user,id=net0,restrict=on" ∷ [])
    × (values_of "-snapshot" read ≡ (if true then "" ∷ [] else []))
    × (values_of "-no-reboot" read ≡ "" ∷ [])
    × (values_of "-kernel" read ≡ [])
    × ((firmware_code : String) × (first_existing disk.is_file profile.firmware_code_candidates
          ≡ ok firmware_code)
        × (values_of "-drive" read ≡ drives disk.shown profile firmware_code launch paths))
build_command-options_example =
    build_command-options disk.shown disk.is_file profile launch paths built.0 built.1

abbrev members : Members String
members = record { has_return = λ m. m == "return"; has_error = λ m. m == "error" }

abbrev lines : List (Line String)
lines = message "hello" ∷ message "return" ∷ message "event" ∷ message "error" ∷ []

abbrev reply : QmpReply String
reply = record { greeting = "hello"; reply = "error" }

session_iff_example : (session members lines ≡ ok reply) ↔ IsSession members reply lines
session_iff_example = session_iff members lines reply

abbrev guest : GuestTarget
guest = record { image = "disk.qcow2"; payload_iso = none }

abbrev quick : GuestCase
quick = record { seed = none; timeout = some 4 }

close-IsReleased_example :
    let s =
      after_call decode host disk profile
        (λ path. true)
        sentinel
        5
        guest
        closes
        (after_calls decode host disk profile
          (λ path. true)
          sentinel
          5
          guest
          (executes quick ∷ closes ∷ executes quick ∷ executes quick ∷ [])
          new_target) in
    (s.run ≡ none) × IsReleased s.vm × (s.vm.clients ≡ 0) × ((s.vm.stray_logs ≡ 0) ⊎ LogsFail host)
close-IsReleased_example =
    close-IsReleased decode host disk profile (λ path. true) sentinel 5 guest (λ m. refl)
      (λ m. refl) refl 5 (ground arith) in_time
      (executes quick ∷ closes ∷ executes quick ∷ executes quick ∷ [])
      (ground arith, (ground arith, (ground arith, tt)))

-- a host whose guests say nothing
abbrev silent : Host
silent = record host { receives = λ m. timed_out }

abbrev first_end : Vm
first_end =
    vm_of
      (ensure_run decode silent disk profile (λ path. true) sentinel 6 guest quick none
        new_target.vm).ended

gives_up :
    (ensure_run decode silent disk profile
      (λ path. true)
      sentinel
      6
      guest
      quick
      none
      new_target.vm).ended
    ≡ raised (timeout_error "sentinel") first_end
unfolding ensure_run start spawn build_command wait_for_serial connect_unix connect_rounds
    read_rounds save_log require_sentinel stop poll terminate kill close_logs
gives_up = refl

execute-stopped_example :
    let called =
      execute decode silent disk profile (λ path. true) sentinel 6 guest quick none new_target.vm in
    (called.ended ≡ raised (timeout_error "sentinel") first_end)
    × Fail decode silent disk profile
        (λ path. true)
        sentinel
        5
        guest
        (quick ∷ quick ∷ [])
        (after_called called)
execute-stopped_example =
    execute-stopped decode silent disk profile (λ path. true) sentinel 5 guest (λ m. refl) refl
      in_time quick (quick ∷ quick ∷ []) new_target.vm first_end (ground arith, (ground arith, tt))
      gives_up
