-- ===== src/Os/Config/RoundTrip.antt =====
-- A configuration that is written out in the form of its file is read again.
use Prim.Native.String.{String, len}
use Prim.Native.String
use os_assignment_hk.Common.{
  ℕ, ◌+◌, ◌^◌, ◌<◌, ◌≡◌, refl, arith, ltb, true, some, List, [], ◌∷◌, length, ok,
}
use os_assignment_hk.Common.Int.{ℤ, pos}
use os_assignment_hk.Loader.{IsWord, IsInt, Scanf}
use os_assignment_hk.Os.Config.{
  Job, strcat, scan_int, scan_three, scan_sizes, scan_job, scan_jobs, read_config,
}

-- a line for a process: its start time, the name of its file in input/proc, and its priority
pub record Line : Type 0 where
  pub start_time : ℕ
  pub name : String
  pub prio : ℕ

abbrev pub job_of : Line → Job
job_of l = record {
  start_time = l.start_time;
  path = String.◌++◌ "input/proc/" l.name;
  prio = l.prio;
}

abbrev pub jobs_of : List Line → List Job
jobs_of [] = []
jobs_of (l ∷ ls) = job_of l ∷ jobs_of ls

-- The numbers fit an `unsigned long`, and the name is a word that fits the arrays with its directory.
abbrev pub Fits : Line → Type 0
Fits l = (l.start_time < 2 ^ 64) × (l.prio < 2 ^ 64) × IsWord l.name × (len l.name < 89)

abbrev pub AllFit : List Line → Type 0
AllFit [] = Unit
AllFit (l ∷ ls) = Fits l × AllFit ls

abbrev pub AllInts : List ℤ → Type 0
AllInts [] = Unit
AllInts (z ∷ zs) = IsInt z × AllInts zs

module _ {ℓ} {File : Type ℓ} (io : Scanf File) where
  abbrev put_sizes : List ℤ → File → File
  put_sizes [] rest = rest
  put_sizes (z ∷ zs) rest = io.put_int z (put_sizes zs rest)

  abbrev put_lines : List Line → File → File
  put_lines [] rest = rest
  put_lines (l ∷ ls) rest =
      io.put_long l.start_time (io.put_string l.name (io.put_long l.prio (put_lines ls rest)))

  -- the text of a configuration
  abbrev pub put_config : ℤ → ℤ → ℤ → List ℤ → List Line → File → File
  put_config time_slot num_cpus memramsz memswpsz lines rest = io.put_int time_slot (
      io.put_int num_cpus (
        io.put_int (pos (length lines))
          (io.put_int memramsz (put_sizes memswpsz (put_lines lines rest)))))

  scan_int_lem : (z : ℤ) (rest : File) → IsInt z → scan_int io (io.put_int z rest) ≡ (z, rest)
  unfolding scan_int
  scan_int_lem z rest h = rw (io.int-put_int z rest h, scan_int) refl

  scan_three_lem :
      (a b c : ℤ) (rest : File)
      → IsInt a
      → IsInt b
      → IsInt c
      → scan_three io (io.put_int a (io.put_int b (io.put_int c rest))) ≡ (a, b, c, rest)
  unfolding scan_three
  scan_three_lem a b c rest ha hb hc =
      rw (io.int-put_int a (io.put_int b (io.put_int c rest)) ha, scan_three)
        (rw (io.int-put_int b (io.put_int c rest) hb) (rw (io.int-put_int c rest hc) refl))

  scan_sizes_lem :
      (zs : List ℤ) (rest : File)
      → AllInts zs
      → scan_sizes io (length zs) (put_sizes zs rest) ≡ (zs, rest)
  unfolding scan_sizes
  scan_sizes_lem [] rest h = refl
  scan_sizes_lem (z ∷ zs) rest (h, hs) =
      rw (scan_int_lem z (put_sizes zs rest) h) (rw (scan_sizes_lem zs rest hs) refl)

  scan_job_lem :
      (l : Line) (rest : File) (old : ℕ)
      → Fits l
      → scan_job io (put_lines (l ∷ []) rest) old ≡ ok (job_of l, rest)
  unfolding scan_job strcat
  scan_job_lem l rest old (hs, hp, word, short) =
      let fits : ltb (len l.name) 100 ≡ true = ground arith in
      let with_dir : ltb (len "input/proc/" + len l.name) 100 ≡ true = ground arith in
      rw
        (
          io.long-put_long l.start_time (io.put_string l.name (io.put_long l.prio rest)) hs,
          scan_job,
        )
        (rw (io.string-put_string l.name (io.put_long l.prio rest) word)
          (rw fits (rw with_dir (rw (io.long-put_long l.prio rest hp) refl))))

  scan_jobs_lem :
      (ls : List Line) (i : ℕ) (old : ℕ → ℕ) (rest : File)
      → AllFit ls
      → scan_jobs io (length ls) i old (put_lines ls rest) ≡ ok (jobs_of ls, rest)
  unfolding scan_jobs
  scan_jobs_lem [] i old rest h = refl
  scan_jobs_lem (l ∷ ls) i old rest (h, hs) =
      rw (scan_job_lem l (put_lines ls rest) (old i) h)
        (rw (scan_jobs_lem ls (i + 1) old rest hs) refl)

  -- For a file that holds the time slot, the number of CPUs, the number of lines that follow, the size of
  -- RAM, four sizes of swap devices, and the lines of the processes, with all `int`s in range, all start
  -- times and priorities below 2^64, and each name a word of fewer than 89 bytes: `read_config` gives
  -- just these, each process with the path of its file in input/proc, and a TLB of 64 KB.
  pub read_config-put_config :
      (time_slot num_cpus memramsz a b c d : ℤ) (lines : List Line) (rest : File) (old : ℕ → ℕ)
      → IsInt time_slot
      → IsInt num_cpus
      → IsInt memramsz
      → AllInts (a ∷ b ∷ c ∷ d ∷ [])
      → length lines < 2 ^ 31
      → AllFit lines
      → read_config io
          (some (put_config time_slot num_cpus memramsz (a ∷ b ∷ c ∷ d ∷ []) lines rest))
          old
        ≡ ok (record {
          time_slot = time_slot;
          num_cpus = num_cpus;
          num_processes = pos (length lines);
          tlbsz = 0x10000;
          memramsz = memramsz;
          memswpsz = a ∷ b ∷ c ∷ d ∷ [];
          ld_processes = jobs_of lines;
        })
  unfolding read_config
  read_config-put_config ts nc ram a b c d lines rest old ht hn hr hz few fit =
      let sizes = a ∷ b ∷ c ∷ d ∷ [] in
      rw
        (scan_three_lem ts nc (pos (length lines))
          (io.put_int ram (put_sizes sizes (put_lines lines rest))) ht hn few)
        (rw (scan_int_lem ram (put_sizes sizes (put_lines lines rest)) hr) (
          rw (scan_sizes_lem sizes (put_lines lines rest) hz)
            (rw (scan_jobs_lem lines 0 old rest fit) refl)))
