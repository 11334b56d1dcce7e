-- ===== src/Loader.antt =====
-- src/loader.c: a process from the text of its file. What `fscanf` reads is a parameter, with the
-- documented behaviour of its conversions: `%s` reads the next word, `%u`, `%lu` and `%d` the next
-- number.
pub mod RoundTrip
use Prim.Native.Char.{code}
use Prim.Native.String.{String, len}
use Prim.Native.String
use text.Mathlib.Text.{◌==◌}
use os_assignment_hk.Common.{
  ℕ, zero, suc, ◌+◌, ◌%◌, ◌^◌, ◌<◌, ◌≡◌, ltb, Bool, true, false, ◌&&◌, Option, none, some, List, [],
  ◌∷◌, Result, ok, exited, fault, ◌>>=◌, if◌then◌else◌,
}
use os_assignment_hk.Common.Int.{ℤ, pos, negsuc}
use os_assignment_hk.Mem.{page_size}
use os_assignment_hk.Cpu.{Opcode, calc, alloc, free, read, write, Inst, Pcb}

-- no white space of the C locale in a text
unfoldable pub no_space : String → Bool
no_space String.[] = true
no_space (String.◌∷◌ c s) =
    let later = no_space s in
    if ltb 31 (code c) && ltb (code c) 33
    then false
    else if ltb 8 (code c) && ltb (code c) 14
    then false
    else later

-- a text that `%s` reads as one word
abbrev pub IsWord : String → Type 0
IsWord w = (0 < len w) × (no_space w ≡ true)

-- The number fits an `int`.
abbrev pub IsInt : ℤ → Type 0
IsInt (pos n) = n < 2 ^ 31
IsInt (negsuc n) = n < 2 ^ 31

-- A text file from a position on. `none` is a conversion that fails and leaves the position.
pub record Scanf {ℓ} (File : Type ℓ) : Type ℓ where
  pub string : File → Option (String × File)
  pub unsigned : File → Option (ℕ × File)
  pub long : File → Option (ℕ × File)
  pub int : File → Option (ℤ × File)
  pub put_string : String → File → File
  pub put_unsigned : ℕ → File → File
  pub put_long : ℕ → File → File
  pub put_int : ℤ → File → File
  pub string-put_string : (w : String) (f : File) → IsWord w → string (put_string w f) ≡ some (w, f)
  pub unsigned-put_unsigned :
      (n : ℕ) (f : File) → n < 2 ^ 32 → unsigned (put_unsigned n f) ≡ some (n, f)
  pub long-put_long : (n : ℕ) (f : File) → n < 2 ^ 64 → long (put_long n f) ≡ some (n, f)
  pub int-put_int : (z : ℤ) (f : File) → IsInt z → int (put_int z f) ≡ some (z, f)

-- `OPT_CALC` and the others
abbrev pub opcode_name : Opcode → String
opcode_name calc = "calc"
opcode_name alloc = "alloc"
opcode_name free = "free"
opcode_name read = "read"
opcode_name write = "write"

-- Any other word ends the program.
unfoldable pub get_opcode : String → Result Opcode
get_opcode opt =
    if opt == "calc"
    then ok calc
    else if opt == "alloc"
    then ok alloc
    else if opt == "free"
    then ok free
    else if opt == "read"
    then ok read
    else if opt == "write"
    then ok write
    else exited

module _ {ℓ} {File : Type ℓ} (io : Scanf File) where
  -- `%u` into a variable that holds `old`, which stays when the conversion fails
  unfoldable pub scan_unsigned : File → ℕ → ℕ × File
  scan_unsigned file old = elim (io.unsigned file) [
    | none ↦ (old, file)
    | some (n, rest) ↦ (n, rest)
  ]

  -- `%s` into `char opcode[10]`, which holds `old`, `none` before the first word; a word with its final
  -- zero that does not fit is written past the end.
  unfoldable pub scan_opcode : File → Option String → Result (String × File)
  scan_opcode file old = elim (io.string file) [
    | none ↦ elim old [ none ↦ fault | some w ↦ ok (w, file) ]
    | some (w, rest) ↦ if ltb (len w) 10 then ok (w, rest) else fault
  ]

  -- the `switch` on the opcode of `text[i]`; `old` is what `malloc` left there
  unfoldable pub load_args : Opcode → File → Inst → Inst × File
  load_args calc file old = (record old { opcode = calc }, file)
  load_args alloc file old =
      let (a, f) = scan_unsigned file old.arg_0 in
      let (b, g) = scan_unsigned f old.arg_1 in
      (record old { opcode = alloc; arg_0 = a; arg_1 = b }, g)
  load_args free file old =
      let (a, f) = scan_unsigned file old.arg_0 in (record old { opcode = free; arg_0 = a }, f)
  load_args read file old =
      let (a, f) = scan_unsigned file old.arg_0 in
      let (b, g) = scan_unsigned f old.arg_1 in
      let (c, h) = scan_unsigned g old.arg_2 in
      (record { opcode = read; arg_0 = a; arg_1 = b; arg_2 = c }, h)
  load_args write file old =
      let (a, f) = scan_unsigned file old.arg_0 in
      let (b, g) = scan_unsigned f old.arg_1 in
      let (c, h) = scan_unsigned g old.arg_2 in
      (record { opcode = write; arg_0 = a; arg_1 = b; arg_2 = c }, h)

  -- The loop of `load` from instruction `i` on, with the rounds left, the contents of `opcode`, and
  -- those of the new `text`.
  unfoldable pub load_code : ℕ → ℕ → Option String → (ℕ → Inst) → File → Result (List Inst)
  load_code zero i buffer old file = ok []
  load_code (suc n) i buffer old file = scan_opcode file buffer >>= λ (w, f).
      get_opcode w >>= λ opcode.
      let (ins, g) = load_args opcode f (old i) in
      load_code n (i + 1) (some w) old g >>= λ rest. ok (ins ∷ rest)

  -- `load`: the process and the new `avail_pid`. `file` is what `fopen` gives; `old_pcb`, `old_size` and
  -- `old` are what the memory from `malloc` held.
  unfoldable pub load : ℕ → Option File → Pcb → ℕ → (ℕ → Inst) → Result (Pcb × ℕ)
  load avail_pid none old_pcb old_size old = exited
  load avail_pid (some file) old_pcb old_size old =
      let (priority, f) = scan_unsigned file old_pcb.priority in
      let (size, g) = scan_unsigned f old_size in
      load_code size 0 none old g >>= λ code. ok (
        record old_pcb {
          pid = avail_pid;
          priority = priority;
          code = code;
          pc = 0;
          bp = page_size;
        },
        (avail_pid + 1) % 2 ^ 32,
      )
