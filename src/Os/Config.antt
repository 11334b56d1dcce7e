-- ===== src/Os/Config.antt =====
-- `read_config` of src/os.c: the numbers of the machine and the list of processes, from the text of the
-- configuration. White space in a format only skips white space, which every conversion used here
-- skips too. What a failed conversion leaves: the numbers are static and begin as 0, `prio[i]` is from
-- `malloc`, and `proc` is an array of the round of the loop, of which a use is then undefined.
pub mod RoundTrip
use Prim.Native.String.{String, len}
use Prim.Native.String
use os_assignment_hk.Common.{
  ℕ, zero, suc, ◌+◌, ltb, Option, none, some, List, [], ◌∷◌, Result, ok, exited, fault, ◌>>=◌,
  if◌then◌else◌,
}
use os_assignment_hk.Common.Int.{ℤ, pos, rounds}
use os_assignment_hk.Vm.{paging_max_mmswp}
use os_assignment_hk.Loader.{Scanf}

-- one element of each array of `ld_processes`
pub record Job : Type 0 where
  pub start_time : ℕ
  pub path : String
  pub prio : ℕ

-- the static variables that `read_config` writes
pub record Config : Type 0 where
  pub time_slot : ℤ
  pub num_cpus : ℤ
  pub num_processes : ℤ
  pub tlbsz : ℕ
  pub memramsz : ℤ
  pub memswpsz : List ℤ
  pub ld_processes : List Job

-- `strcat` of a text to one of `start` characters in an array of 100, which also holds the final zero
unfoldable pub strcat : String → String → Result String
strcat start s = if ltb (len start + len s) 100 then ok (String.◌++◌ start s) else fault

module _ {ℓ} {File : Type ℓ} (io : Scanf File) where
  -- `%d` into a variable that is 0
  unfoldable pub scan_int : File → ℤ × File
  scan_int file = elim (io.int file) [ none ↦ (pos 0, file) | some (z, rest) ↦ (z, rest) ]

  -- `%d %d %d` in one call, which stops at the first conversion that fails
  unfoldable pub scan_three : File → ℤ × ℤ × ℤ × File
  scan_three file = elim (io.int file) [
    | none ↦ (pos 0, pos 0, pos 0, file)
    | some (a, f) ↦ elim (io.int f) [
      | none ↦ (a, pos 0, pos 0, f)
      | some (b, g) ↦ elim (io.int g) [ none ↦ (a, b, pos 0, g) | some (c, h) ↦ (a, b, c, h) ]
    ]
  ]

  -- the loop over `memswpsz`, with the rounds left
  unfoldable pub scan_sizes : ℕ → File → List ℤ × File
  scan_sizes zero file = ([], file)
  scan_sizes (suc n) file =
      let (z, f) = scan_int file in let (rest, g) = scan_sizes n f in (z ∷ rest, g)

  -- One round of the loop over the processes; `old` is what `prio[i]` holds.
  unfoldable pub scan_job : File → ℕ → Result (Job × File)
  scan_job file old = elim (io.long file) [
    | none ↦ fault
    | some (start, f) ↦ elim (io.string f) [
      | none ↦ fault
      | some (proc, g) ↦
          if ltb (len proc) 100
          then (strcat "input/proc/" proc >>= λ path. elim (io.long g) [
            | none ↦ ok (record { start_time = start; path = path; prio = old }, g)
            | some (prio, h) ↦ ok (record { start_time = start; path = path; prio = prio }, h)
          ])
          else fault
    ]
  ]

  -- the loop over the processes from `i` on, with the rounds left
  unfoldable pub scan_jobs : ℕ → ℕ → (ℕ → ℕ) → File → Result (List Job × File)
  scan_jobs zero i old file = ok ([], file)
  scan_jobs (suc n) i old file = scan_job file (old i) >>= λ (job, f).
      scan_jobs n (i + 1) old f >>= λ (jobs, g). ok (job ∷ jobs, g)

  -- `read_config`, of what `fopen` gives, with CPUTLB_FIXED_TLBSZ and without MM_FIXED_MEMSZ
  unfoldable pub read_config : Option File → (ℕ → ℕ) → Result Config
  read_config none old = exited
  read_config (some file) old =
      let (time_slot, num_cpus, num_processes, f) = scan_three file in
      let (memramsz, g) = scan_int f in
      let (memswpsz, h) = scan_sizes paging_max_mmswp g in
      scan_jobs (rounds num_processes) 0 old h >>= λ (jobs, rest). ok (record {
        time_slot = time_slot;
        num_cpus = num_cpus;
        num_processes = num_processes;
        tlbsz = 0x10000;
        memramsz = memramsz;
        memswpsz = memswpsz;
        ld_processes = jobs;
      })
