-- ===== src/Targets/Ownership.antt =====
-- `QemuTarget` of src/osbench/targets.py holds nothing of a guest that it does not know of.
use os_bench.Common.{
  get_or, ℕ, suc, ◌+◌, ◌≤◌, String, ◌≡◌, refl, ◌∙◌, Bool, true, false, List, [], ◌∷◌, Option, none,
  some, arith, ◌⊎◌, inl, inr,
}
use os_bench.Common.Result.{Error, Result}
use os_bench.Qemu.Bytes.{contains}
use os_bench.Qemu.Profile.{Profile}
use os_bench.Qemu.Machine.{Host, absent, unopened, Vm, returned, and_then, vm_of}
use os_bench.Qemu.Stopping.{IsReleased, stop-Stops}
use os_bench.Qemu.Serial.{wait_for_serial}
use os_bench.Qemu.Waiting.{ready, gave_up, failed, unsaved, wait_for_serial-Waits}
use os_bench.Qemu.Agent.{agent_case}
use os_bench.Qemu.Answering.{decodes, garbles, times_out, unsent, failed, agent_case-Answers}
use os_bench.Qemu.Control.{Disk, QemuRun, boot_launch}
use os_bench.Qemu.Starting.{Leak, started, refused, leaked, start-Starts}
use os_bench.Targets.Guest.{GuestCase, GuestTarget, Called, media, ensure_run, execute, close}

-- a method call of the target
pub data Call : Type 0 where
  executes : GuestCase → Call
  closes : Call

pub record TargetState : Type 0 where
  pub run : Option QemuRun
  pub vm : Vm

-- A log that a start opened could not be followed by the second one, or by run.json.
pub data LogsFail (host : Host) : Type 0 where
  no_stderr : (moment : ℕ) → host.opens_stderr moment ≡ false → LogsFail host
  no_record : (moment : ℕ) → host.records moment ≡ false → LogsFail host

-- Without a run nothing is left of a guest; no socket is open between two calls; and a log that
-- nothing closes is there only after such a start.
pub record IsOwned (host : Host) (s : TargetState) : Type 0 where
  pub released : s.run ≡ none → IsReleased s.vm
  pub clients : s.vm.clients ≡ 0
  pub logs : (s.vm.stray_logs ≡ 0) ⊎ LogsFail host

same_logs :
    {host : Host} {before after : ℕ}
    → after ≡ before
    → (before ≡ 0) ⊎ LogsFail host
    → (after ≡ 0) ⊎ LogsFail host
same_logs r (inl none_stray) = inl (r ∙ none_stray)
same_logs r (inr why) = inr why

leaked_logs :
    (host : Host) (disk : Disk) (profile : Profile) {before after : ℕ} {error : Error}
    → Leak host disk profile before error after
    → LogsFail host
leaked_logs host disk profile (Leak.no_stderr moment bad) = no_stderr moment bad
leaked_logs host disk profile (Leak.no_record moment bad) = no_record moment bad

abbrev pub after_called {ℓ} : {A : Type ℓ} → Called A → TargetState
after_called called = record { run = called.run; vm = vm_of called.ended }

-- the target as it is made
abbrev pub new_target : TargetState
new_target = record {
  run = none;
  vm = record {
    moment = 0;
    process = absent;
    stdout_handle = unopened;
    stderr_handle = unopened;
    stray_logs = 0;
    clients = 0;
    buffer = [];
    serial_log = none;
  };
}

-- the time for a case
abbrev pub case_limit : GuestCase → ℕ
case_limit c = get_or c.timeout 30000000000

-- the cases of the calls may take that long
abbrev pub IsWithin : ℕ → List Call → Type 0
IsWithin limit [] = Unit {0}
IsWithin limit (executes c ∷ calls) = (case_limit c ≤ limit) × IsWithin limit calls
IsWithin limit (closes ∷ calls) = IsWithin limit calls

module _ {Answer : Type 0} (decode : List ℕ → Result Answer) (host : Host) (disk : Disk)
    (profile : Profile) (exists_path : String → Bool) (sentinel : List ℕ) (rounds : ℕ)
    (target : GuestTarget) where
  abbrev pub after_call : Call → TargetState → TargetState
  after_call (executes c) s =
      after_called
        (execute decode host disk profile exists_path sentinel (suc rounds) target c s.run s.vm)
  after_call closes s =
      after_called
        (close decode host disk profile exists_path sentinel (suc rounds) target s.run s.vm)

  -- the state after some calls, whether they returned or raised
  abbrev pub after_calls : List Call → TargetState → TargetState
  after_calls [] s = s
  after_calls (call ∷ calls) s = after_calls calls (after_call call s)

  module _ (dies : (moment : ℕ) → host.dies moment ≡ true)
      (sends : (moment : ℕ) → host.sends moment ≡ true)
      (some_sentinel : contains sentinel [] ≡ false) (limit : ℕ)
      (boots : profile.boot_timeout ≤ limit)
      (long : (moment : ℕ) → host.clock moment + limit ≤ host.clock (moment + rounds)) where
    shorter :
        (n : ℕ) → n ≤ limit → (moment : ℕ) → host.clock moment + n ≤ host.clock (moment + rounds)
    shorter n h moment = let l = long moment in ground arith

    -- the request to a guest that runs or not
    asked-IsOwned :
        (c : GuestCase) (run : QemuRun) (vm : Vm)
        → case_limit c ≤ limit
        → vm.clients ≡ 0
        → (vm.stray_logs ≡ 0) ⊎ LogsFail host
        → IsOwned host (record {
          run = some run;
          vm = vm_of (agent_case decode host (suc rounds) run.paths.serial_path (case_limit c) vm);
        })
    asked-IsOwned c run vm fits k q =
        elim (agent_case-Answers decode host rounds run.paths.serial_path (case_limit c)
          (shorter (case_limit c) fits) vm) [
            | decodes from n encoded answer after quiet found good r o same ↦ record {
              released = λ gone. absurd (cc gone);
              clients = rw (r) (same ∙ k);
              logs = rw (r) (same_logs o q);
            }
            | garbles from n encoded error after quiet found bad r o same ↦ record {
              released = λ gone. absurd (cc gone);
              clients = rw (r) (same ∙ k);
              logs = rw (r) (same_logs o q);
            }
            | times_out from n after quiet late r o same ↦ record {
              released = λ gone. absurd (cc gone);
              clients = rw (r) (same ∙ k);
              logs = rw (r) (same_logs o q);
            }
            | unsent moment after lost r o more ↦ absurd (cc (lost, sends moment))
            | failed error after r fault o same ↦ record {
              released = λ gone. absurd (cc gone);
              clients = rw (r) (same ∙ k);
              logs = rw (r) (same_logs o q);
            }
          ]

    -- a guest that was just started: the wait, and the request
    begun-IsOwned :
        (c : GuestCase) (run : QemuRun) (vm : Vm)
        → case_limit c ≤ limit
        → vm.clients ≡ 0
        → (vm.stray_logs ≡ 0) ⊎ LogsFail host
        → IsOwned host (record {
          run = some run;
          vm = vm_of (
              and_then
                (and_then
                  (wait_for_serial host
                    (suc rounds)
                    profile.boot_timeout
                    run.paths.serial_path
                    sentinel
                    none
                    vm)
                  (λ serial after. returned run after))
                (λ r now.
                  agent_case decode host (suc rounds) r.paths.serial_path (case_limit c) now));
        })
    begun-IsOwned c run vm fits k q =
        elim (wait_for_serial-Waits host sentinel dies some_sentinel rounds profile.boot_timeout
          run.paths.serial_path none (shorter profile.boot_timeout boots) vm) [
            | ready from n after r found log alive kept ↦
                rw (r)
                  (asked-IsOwned c run after fits (kept.clients ∙ k) (same_logs kept.stray_logs q))
            | gave_up from n after r unseen over_now log over errors o same ↦ rw (r) (record {
              released = λ gone. absurd (cc gone);
              clients = same ∙ k;
              logs = same_logs o q;
            })
            | failed error after r fault o same ↦ rw (r) (record {
              released = λ gone. absurd (cc gone);
              clients = same ∙ k;
              logs = same_logs o q;
            })
            | unsaved moment after full r o same ↦ rw (r) (record {
              released = λ gone. absurd (cc gone);
              clients = same ∙ k;
              logs = same_logs o q;
            })
          ]

    execute-IsOwned :
        (c : GuestCase) (run : Option QemuRun) (vm : Vm)
        → case_limit c ≤ limit
        → IsOwned host (record { run = run; vm = vm })
        → IsOwned host (after_call (executes c) (record { run = run; vm = vm }))
    unfolding execute ensure_run
    execute-IsOwned c (some run) vm fits h = asked-IsOwned c run vm fits h.clients h.logs
    execute-IsOwned c none vm fits h =
        elim (start-Starts host disk profile
          (boot_launch host disk profile target.image (get_or c.seed 1) (
            media decode host disk profile exists_path sentinel (suc rounds) target
              target.payload_iso))
          none vm) [
            | started run after r built alive out errors o same ↦
                rw (r) (begun-IsOwned c run after fits (same ∙ h.clients) (same_logs o h.logs))
            | refused error after r why kept o same ↦ rw (r) (record {
              released = λ gone. kept (h.released refl);
              clients = same ∙ h.clients;
              logs = same_logs o h.logs;
            })
            | leaked error after r why kept same ↦ rw (r) (record {
              released = λ gone. kept (h.released refl);
              clients = same ∙ h.clients;
              logs = inr (leaked_logs host disk profile why);
            })
          ]

    close-IsOwned :
        (run : Option QemuRun) (vm : Vm)
        → IsOwned host (record { run = run; vm = vm })
        → let s = after_call closes (record { run = run; vm = vm }) in
          (s.run ≡ none)
          × IsReleased s.vm
          × (s.vm.clients ≡ 0)
          × ((s.vm.stray_logs ≡ 0) ⊎ LogsFail host)
    unfolding close
    close-IsOwned none vm h = (refl, h.released refl, h.clients, h.logs)
    close-IsOwned (some run) vm h =
        let s = stop-Stops host dies vm in
        rw (s.returns) (refl, s.releases, s.clients ∙ h.clients, same_logs s.stray_logs h.logs)

    after_calls-IsOwned :
        (calls : List Call) (s : TargetState)
        → IsWithin limit calls
        → IsOwned host s
        → IsOwned host (after_calls calls s)
    after_calls-IsOwned [] s fits h = h
    after_calls-IsOwned (executes c ∷ calls) s (fits, others) h =
        after_calls-IsOwned calls _ others (execute-IsOwned c s.run s.vm fits h)
    after_calls-IsOwned (closes ∷ calls) s fits h =
        let (gone, over, none_open, logs) = close-IsOwned s.run s.vm h in
        after_calls-IsOwned calls _ fits
          (record { released = λ same. over; clients = none_open; logs = logs })

    -- However a target was used, and whichever of its calls raised: once it is closed it has no
    -- run, no process and no log of a run is left, and no socket is open. A log that no run knows
    -- of is open only if the host at some moment fails to open the second log or to write
    -- run.json. The kernel must end what it is told
    -- to kill and pass requests on, the sentinel not be empty, and the rounds be as many as the
    -- times of the boot and of the cases are long.
    pub close-IsReleased :
        (calls : List Call)
        → IsWithin limit calls
        → let s = after_call closes (after_calls calls new_target) in
          (s.run ≡ none)
          × IsReleased s.vm
          × (s.vm.clients ≡ 0)
          × ((s.vm.stray_logs ≡ 0) ⊎ LogsFail host)
    close-IsReleased calls fits =
        let s = after_calls calls new_target in
        close-IsOwned s.run s.vm (
          after_calls-IsOwned calls new_target fits (record {
            released =
                λ none_yet. record { process = refl; stdout_handle = refl; stderr_handle = refl };
            clients = refl;
            logs = inl refl;
          }))
