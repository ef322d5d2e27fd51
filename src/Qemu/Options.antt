-- ===== src/Qemu/Options.antt =====
-- What QEMU reads in the command that `build_command` of src/osbench/qemu.py gives it.
use mathlib.Core.List.{append-nil}
use os_bench.Common.{
  ℕ, suc, String, ◌≡◌, refl, ◌∙◌, ap, Bool, true, false, ◌||◌, List, [], ◌∷◌, ◌++◌, Option, none,
  some, ◌==◌, if◌then◌else◌, inl, inr, Bool-cases,
}
use os_bench.Common.Text.{concat}
use os_bench.Common.Result.{ok, ok-injective, >>=-eq-ok}
use os_bench.Qemu.Profile.{Profile}
use os_bench.Qemu.Command.{
  Launch, RunPaths, first_existing, machine_options, medium_drive, media_options, install_options,
  given_option, snapshot_options, build_command,
}

-- the options without a value
abbrev pub is_switch : String → Bool
is_switch flag = flag == "-nodefaults" || (flag == "-no-reboot" || flag == "-snapshot")

-- an option as it is read: its name, and its value if it takes one
pub record Read : Type 0 where
  pub flag : String
  pub value : Option String

abbrev switch_read : String → List Read
switch_read flag = if is_switch flag then record { flag = flag; value = none } ∷ [] else []

-- The options, from left to right: after a name that is no switch its value is read.
abbrev pub options_from : Option String → List String → List Read
options_from pending [] = []
options_from none (flag ∷ rest) =
    switch_read flag ++ options_from (if is_switch flag then none else some flag) rest
options_from (some flag) (value ∷ rest) =
    record { flag = flag; value = some value } ∷ options_from none rest

-- of a command: without the program
abbrev pub options : List String → List Read
options [] = []
options (binary ∷ rest) = options_from none rest

abbrev value_of : Option String → List String
value_of none = "" ∷ []
value_of (some value) = value ∷ []

-- the values given for an option; a switch has the empty one
abbrev pub values_of : String → List Read → List String
values_of flag [] = []
values_of flag (r ∷ rs) =
    let rest = values_of flag rs in if r.flag == flag then value_of r.value ++ rest else rest

-- the values of an option in arguments that follow whole options
abbrev later_values : String → List String → List String
later_values flag arguments = values_of flag (options_from none arguments)

abbrev if_for : String → String → List String → List String
if_for flag wanted values = if flag == wanted then values else []

abbrev pub to_list : Option String → List String
to_list none = []
to_list (some value) = value ∷ []

given_option-values :
    (flag wanted : String) (value : Option String) (rest : List String)
    → is_switch flag ≡ false
    → later_values wanted (given_option flag value ++ rest)
      ≡ if_for flag wanted (to_list value) ++ later_values wanted rest
given_option-values flag wanted none rest h = elim (Bool-cases (flag == wanted)) [
  | inl e ↦ rw (e) refl
  | inr e ↦ rw (e) refl
]
given_option-values flag wanted (some value) rest h = elim (Bool-cases (flag == wanted)) [
  | inl e ↦ rw (h, e) refl
  | inr e ↦ rw (h, e) refl
]

module _ (shown : ℕ → String) where
  -- the CD-ROM drives of the media, numbered from an index on
  abbrev pub media_drives : ℕ → List String → List String
  media_drives index [] = []
  media_drives index (medium ∷ media) =
      medium_drive shown medium index ∷ media_drives (suc index) media

  abbrev pub install_drives : Option String → List String
  install_drives none = []
  install_drives (some iso) = concat ("file=" ∷ iso ∷ ",media=cdrom,readonly=on,index=1" ∷ []) ∷ []

  media_options-values :
      (wanted : String) (index : ℕ) (media rest : List String)
      → later_values wanted (media_options shown index media ++ rest)
        ≡ if_for "-drive" wanted (media_drives index media) ++ later_values wanted rest
  media_options-values wanted index [] rest = elim (Bool-cases ("-drive" == wanted)) [
    | inl e ↦ rw (e) refl
    | inr e ↦ rw (e) refl
  ]
  media_options-values wanted index (medium ∷ media) rest =
      let h = media_options-values wanted (suc index) media rest in
      elim (Bool-cases ("-drive" == wanted)) [
        | inl e ↦ rw (e) (ap (λ values. medium_drive shown medium index ∷ values) (rw (e) at h))
        | inr e ↦ rw (e) (rw (e) at h)
      ]

  -- the drives of a command: firmware, its variables, the image, and the CD-ROMs
  abbrev pub drives : Profile → String → Launch → RunPaths → List String
  drives profile firmware_code l paths =
      concat ("if=pflash,format=raw,readonly=on,file=" ∷ firmware_code ∷ [])
      ∷ concat ("if=pflash,format=raw,file=" ∷ paths.vars_path ∷ [])
      ∷ concat (
          "file=" ∷ l.image ∷ ",if=" ∷ profile.disk_interface
          ∷ ",format=qcow2,cache=writeback,discard=unmap" ∷ [])
      ∷ (install_drives l.install_iso ++ media_drives 2 l.auxiliary_media)

  -- what the options of a launch give for an option, besides those that every guest gets
  abbrev chosen_values : String → Launch → List String
  chosen_values wanted l =
      if_for "-snapshot" wanted (if l.snapshot then "" ∷ [] else [])
      ++ (if_for "-drive" wanted (install_drives l.install_iso)
          ++ (if_for "-drive" wanted (media_drives 2 l.auxiliary_media)
              ++ (if_for "-kernel" wanted (to_list l.kernel)
                  ++ (if_for "-initrd" wanted (to_list l.initrd)
                      ++ if_for "-append" wanted (to_list l.append)))))

  abbrev chosen_options : Launch → List String
  chosen_options l =
      snapshot_options l.snapshot
      ++ (install_options shown l.install_iso
          ++ (media_options shown 2 l.auxiliary_media
              ++ (given_option "-kernel" l.kernel
                  ++ (given_option "-initrd" l.initrd ++ given_option "-append" l.append))))

  snapshot-values :
      (wanted : String) (snapshot : Bool) (rest : List String)
      → later_values wanted (snapshot_options snapshot ++ rest)
        ≡ if_for "-snapshot" wanted (if snapshot then "" ∷ [] else []) ++ later_values wanted rest
  snapshot-values wanted true rest = elim (Bool-cases ("-snapshot" == wanted)) [
    | inl e ↦ rw (e) refl
    | inr e ↦ rw (e) refl
  ]
  snapshot-values wanted false rest = elim (Bool-cases ("-snapshot" == wanted)) [
    | inl e ↦ rw (e) refl
    | inr e ↦ rw (e) refl
  ]

  install_options-values :
      (wanted : String) (iso : Option String) (rest : List String)
      → later_values wanted (install_options shown iso ++ rest)
        ≡ if_for "-drive" wanted (install_drives iso) ++ later_values wanted rest
  install_options-values wanted none rest = elim (Bool-cases ("-drive" == wanted)) [
    | inl e ↦ rw (e) refl
    | inr e ↦ rw (e) refl
  ]
  install_options-values wanted (some iso) rest = elim (Bool-cases ("-drive" == wanted)) [
    | inl e ↦ rw (e) refl
    | inr e ↦ rw (e) refl
  ]

  last-values :
      (wanted : String) (value : Option String)
      → later_values wanted (given_option "-append" value) ≡ if_for "-append" wanted (to_list value)
  last-values wanted none = elim (Bool-cases ("-append" == wanted)) [
    | inl e ↦ rw (e) refl
    | inr e ↦ rw (e) refl
  ]
  last-values wanted (some value) = elim (Bool-cases ("-append" == wanted)) [
    | inl e ↦ rw (e) refl
    | inr e ↦ rw (e) refl
  ]

  chosen_options-values :
      (wanted : String) (l : Launch)
      → later_values wanted (chosen_options l) ≡ chosen_values wanted l
  chosen_options-values wanted l =
      snapshot-values wanted l.snapshot _
      ∙ ap (λ vs. if_for "-snapshot" wanted (if l.snapshot then "" ∷ [] else []) ++ vs)
          (install_options-values wanted l.install_iso _
            ∙ ap (λ vs. if_for "-drive" wanted (install_drives l.install_iso) ++ vs)
                (media_options-values wanted 2 l.auxiliary_media _
                  ∙ ap (λ vs. if_for "-drive" wanted (media_drives 2 l.auxiliary_media) ++ vs)
                      (given_option-values "-kernel" wanted l.kernel _ refl
                        ∙ ap (λ vs. if_for "-kernel" wanted (to_list l.kernel) ++ vs)
                            (given_option-values "-initrd" wanted l.initrd _ refl
                              ∙ ap (λ vs. if_for "-initrd" wanted (to_list l.initrd) ++ vs)
                                  (last-values wanted l.append)))))

  -- What QEMU reads in the command of a launch: the guest's only network is the restricted one,
  -- what it writes to its drives is discarded exactly if `snapshot` is asked for, it does not
  -- reboot, its drives are the firmware that was found, its variables, the image and the media,
  -- these numbered from 2, the installer 1, and the kernel is the one that is given.
  pub build_command-options :
      (is_file : String → Bool) (profile : Profile) (l : Launch) (paths : RunPaths)
      (command : List String)
      → build_command shown is_file profile l paths ≡ ok command
      → let read = options command in
        (values_of "-netdev" read ≡ "user,id=net0,restrict=on" ∷ [])
        × (values_of "-snapshot" read ≡ (if l.snapshot then "" ∷ [] else []))
        × (values_of "-no-reboot" read ≡ "" ∷ [])
        × (values_of "-kernel" read ≡ to_list l.kernel)
        × ((firmware_code : String) × (first_existing is_file profile.firmware_code_candidates
              ≡ ok firmware_code)
            × (values_of "-drive" read ≡ drives profile firmware_code l paths))
  unfolding build_command
  build_command-options is_file profile l paths command h =
      let (code, found, built) =
        >>=-eq-ok (first_existing is_file profile.firmware_code_candidates) _ h in
      let is : machine_options shown profile code l paths ++ chosen_options l ≡ command =
        ok-injective built in
      rw (← is) (
        rw (chosen_options-values "-netdev" l) refl,
        rw (chosen_options-values "-snapshot" l) (append-nil _),
        rw (chosen_options-values "-no-reboot" l) refl,
        rw (chosen_options-values "-kernel" l) (append-nil _),
        (
          code,
          found,
          rw (chosen_options-values "-drive" l, append-nil (media_drives 2 l.auxiliary_media)) refl,
        ),
      )
