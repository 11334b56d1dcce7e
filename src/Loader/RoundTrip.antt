-- ===== src/Loader/RoundTrip.antt =====
-- A program that is written out in the form of a process file is loaded again.
use Prim.Native.String.{String, len}
use text.Mathlib.Text.{◌==◌}
use text.Mathlib.TextEquality.{eq_iff}
use os_assignment_hk.Common.{
  ℕ, ◌+◌, ◌%◌, ◌^◌, ◌<◌, ◌≡◌, ◌≢◌, ◌↔◌, ◌⊎◌, inl, inr, Bool-cases, ok_inj, refl, sym, ◌∙◌, ap,
  arith, ltb, true, false, Option, none, some, List, [], ◌∷◌, length, ok, exited,
}
use os_assignment_hk.Mem.{page_size}
use os_assignment_hk.Cpu.{Opcode, calc, alloc, free, read, write, Inst, Pcb}
use os_assignment_hk.Loader.{
  IsWord, no_space, Scanf, opcode_name, get_opcode, scan_unsigned, scan_opcode, load_args,
  load_code, load,
}

get_opcode_name : (o : Opcode) → get_opcode (opcode_name o) ≡ ok o
unfolding get_opcode
get_opcode_name calc = refl
get_opcode_name alloc = refl
get_opcode_name free = refl
get_opcode_name read = refl
get_opcode_name write = refl

-- A word is one of the five names or none of them.
get_opcode-cases :
    (w : String)
    → ((o : Opcode) × (w ≡ opcode_name o))
      ⊎ (((o : Opcode) → w ≢ opcode_name o) × (get_opcode w ≡ exited))
unfolding get_opcode
get_opcode-cases w = elim (Bool-cases (w == "calc")) [
  | inl e ↦ inl (calc, (eq_iff w "calc").0 e)
  | inr a ↦ elim (Bool-cases (w == "alloc")) [
    | inl e ↦ inl (alloc, (eq_iff w "alloc").0 e)
    | inr b ↦ elim (Bool-cases (w == "free")) [
      | inl e ↦ inl (free, (eq_iff w "free").0 e)
      | inr c ↦ elim (Bool-cases (w == "read")) [
        | inl e ↦ inl (read, (eq_iff w "read").0 e)
        | inr d ↦ elim (Bool-cases (w == "write")) [
          | inl e ↦ inl (write, (eq_iff w "write").0 e)
          | inr f ↦ inr (differs a b c d f, rw a (rw b (rw c (rw d (rw f refl)))))
        ]
      ]
    ]
  ]
]
  where
    differs :
        (w == "calc") ≡ false
        → (w == "alloc") ≡ false
        → (w == "free") ≡ false
        → (w == "read") ≡ false
        → (w == "write") ≡ false
        → (o : Opcode) → w ≢ opcode_name o
    differs a b c d e calc h = let t = (eq_iff w "calc").1 h in cc
    differs a b c d e alloc h = let t = (eq_iff w "alloc").1 h in cc
    differs a b c d e free h = let t = (eq_iff w "free").1 h in cc
    differs a b c d e read h = let t = (eq_iff w "read").1 h in cc
    differs a b c d e write h = let t = (eq_iff w "write").1 h in cc

-- `get_opcode` gives an opcode exactly at its name, and ends the program exactly at any word that is
-- not one of the five names.
pub get_opcode_lem :
    (w : String) (o : Opcode)
    → ((get_opcode w ≡ ok o) ↔ (w ≡ opcode_name o))
      × ((get_opcode w ≡ exited) ↔ ((x : Opcode) → w ≢ opcode_name x))
get_opcode_lem w o = elim (get_opcode-cases w) [
  | inl (x, e) ↦
      let known : get_opcode w ≡ ok x = ap get_opcode e ∙ get_opcode_name x in
      (
        (
          λ h. e ∙ ap opcode_name (ok_inj (sym known ∙ h)),
          λ h. ap get_opcode h ∙ get_opcode_name o,
        ),
        (λ h. absurd (cc), λ h. absurd (h x e)),
      )
  | inr (other, out) ↦ ((λ h. absurd (cc), λ h. absurd (other o h)), (λ h. other, λ h. out))
]

module _ {ℓ} {File : Type ℓ} (io : Scanf File) where
  abbrev pub put_args : Inst → File → File
  put_args ins rest = elim ins.opcode [
    | calc ↦ rest
    | alloc ↦ io.put_unsigned ins.arg_0 (io.put_unsigned ins.arg_1 rest)
    | free ↦ io.put_unsigned ins.arg_0 rest
    | read ↦ io.put_unsigned ins.arg_0 (io.put_unsigned ins.arg_1 (io.put_unsigned ins.arg_2 rest))
    | write ↦ io.put_unsigned ins.arg_0 (io.put_unsigned ins.arg_1 (io.put_unsigned ins.arg_2 rest))
  ]

  abbrev pub put_code : List Inst → File → File
  put_code [] rest = rest
  put_code (ins ∷ code) rest =
      io.put_string (opcode_name ins.opcode) (put_args ins (put_code code rest))

  -- the text of a process file
  abbrev pub put_process : ℕ → List Inst → File → File
  put_process priority code rest =
      io.put_unsigned priority (io.put_unsigned (length code) (put_code code rest))

  -- the instruction with the arguments that its opcode does not take as they are in memory
  abbrev pub filled : Inst → Inst → Inst
  filled old ins = elim ins.opcode [
    | calc ↦ record old { opcode = calc }
    | alloc ↦ record old { opcode = alloc; arg_0 = ins.arg_0; arg_1 = ins.arg_1 }
    | free ↦ record old { opcode = free; arg_0 = ins.arg_0 }
    | read ↦ ins
    | write ↦ ins
  ]

  -- the arguments fit an `uint32_t`
  abbrev pub Fits : Inst → Type 0
  Fits ins = (ins.arg_0 < 2 ^ 32) × (ins.arg_1 < 2 ^ 32) × (ins.arg_2 < 2 ^ 32)

  abbrev pub AllFit : List Inst → Type 0
  AllFit [] = Unit
  AllFit (ins ∷ code) = Fits ins × AllFit code

  -- a whole program, from instruction `i` on
  abbrev pub all_filled : (ℕ → Inst) → ℕ → List Inst → List Inst
  all_filled old i [] = []
  all_filled old i (ins ∷ code) = filled (old i) ins ∷ all_filled old (i + 1) code

  read_back :
      (n old : ℕ) (rest : File)
      → n < 2 ^ 32
      → scan_unsigned io (io.put_unsigned n rest) old ≡ (n, rest)
  unfolding scan_unsigned
  read_back n old rest h = rw (io.unsigned-put_unsigned n rest h, scan_unsigned) refl

  args_lem :
      (o : Opcode) (a b c : ℕ) (rest : File) (old : Inst)
      → a < 2 ^ 32
      → b < 2 ^ 32
      → c < 2 ^ 32
      → let ins : Inst = record { opcode = o; arg_0 = a; arg_1 = b; arg_2 = c } in
        load_args io o (put_args ins rest) old ≡ (filled old ins, rest)
  unfolding load_args
  args_lem calc a b c rest old ha hb hc = refl
  args_lem alloc a b c rest old ha hb hc =
      rw (read_back a old.arg_0 (io.put_unsigned b rest) ha)
        (rw (read_back b old.arg_1 rest hb) refl)
  args_lem free a b c rest old ha hb hc = rw (read_back a old.arg_0 rest ha) refl
  args_lem read a b c rest old ha hb hc =
      rw (read_back a old.arg_0 (io.put_unsigned b (io.put_unsigned c rest)) ha) (
        rw (read_back b old.arg_1 (io.put_unsigned c rest) hb)
          (rw (read_back c old.arg_2 rest hc) refl))
  args_lem write a b c rest old ha hb hc =
      rw (read_back a old.arg_0 (io.put_unsigned b (io.put_unsigned c rest)) ha) (
        rw (read_back b old.arg_1 (io.put_unsigned c rest) hb)
          (rw (read_back c old.arg_2 rest hc) refl))

  name_fits : (o : Opcode) → IsWord (opcode_name o) × (ltb (len (opcode_name o)) 10 ≡ true)
  unfolding no_space
  name_fits calc = ((omega arith, refl), refl)
  name_fits alloc = ((omega arith, refl), refl)
  name_fits free = ((omega arith, refl), refl)
  name_fits read = ((omega arith, refl), refl)
  name_fits write = ((omega arith, refl), refl)

  scan_name :
      (o : Opcode) (rest : File) (buffer : Option String)
      → scan_opcode io (io.put_string (opcode_name o) rest) buffer ≡ ok (opcode_name o, rest)
  unfolding scan_opcode
  scan_name o rest buffer =
      let (word, short) = name_fits o in
      rw (io.string-put_string (opcode_name o) rest word, scan_opcode) (rw short refl)

  load_code_lem :
      (code : List Inst) (i : ℕ) (buffer : Option String) (old : ℕ → Inst) (rest : File)
      → AllFit code
      → load_code io (length code) i buffer old (put_code code rest) ≡ ok (all_filled old i code)
  unfolding load_code
  load_code_lem [] i buffer old rest h = refl
  load_code_lem (ins ∷ code) i buffer old rest ((ha, hb, hc), h) =
      rw (scan_name ins.opcode (put_args ins (put_code code rest)) buffer) (
        rw (get_opcode_name ins.opcode) (
          rw
            (args_lem ins.opcode ins.arg_0 ins.arg_1 ins.arg_2 (put_code code rest) (old i) ha hb
              hc)
            (rw (load_code_lem code (i + 1) (some (opcode_name ins.opcode)) old rest h) refl)))

  -- For a file that holds a priority, the number of instructions and the instructions, with all numbers
  -- below 2^32, `load` gives a process with the next id, that priority and that program, at its start:
  -- only the arguments that an opcode does not take are what was in memory.
  pub load-put_process :
      (avail_pid priority : ℕ) (code : List Inst) (rest : File) (old_pcb : Pcb) (old_size : ℕ)
      (old : ℕ → Inst)
      → priority < 2 ^ 32
      → length code < 2 ^ 32
      → AllFit code
      → load io avail_pid (some (put_process priority code rest)) old_pcb old_size old
        ≡ ok (
          record old_pcb {
            pid = avail_pid;
            priority = priority;
            code = all_filled old 0 code;
            pc = 0;
            bp = page_size;
          },
          (avail_pid + 1) % 2 ^ 32,
        )
  unfolding load
  load-put_process avail_pid priority code rest old_pcb old_size old hp hs hc =
      rw
        (read_back priority old_pcb.priority (io.put_unsigned (length code) (put_code code rest))
          hp)
        (rw (read_back (length code) old_size (put_code code rest) hs)
          (rw (load_code_lem code 0 none old rest hc) refl))
