-- ===== src/Tests/Program.antt =====
-- The theorem on the loader: a file of tokens with a program of two
-- instructions.
use Prim.Native.String.{String}
use os_assignment_hk.Common.{ℕ, ◌≡◌, refl, arith, Option, none, some, List, [], ◌∷◌, ok}
use os_assignment_hk.Common.Int.{ℤ}
use os_assignment_hk.Mem.{page_size}
use os_assignment_hk.Cpu.{calc, write, Inst, Pcb}
use os_assignment_hk.Loader.{Scanf, load}
use os_assignment_hk.Loader.RoundTrip.{put_process, load-put_process}

-- a text file as the words and the numbers that stand in it
pub data Token : Type 0 where
  word : String → Token
  number : ℕ → Token
  signed : ℤ → Token

abbrev pub string : List Token → Option (String × List Token)
string [] = none
string (word w ∷ f) = some (w, f)
string (number n ∷ f) = none
string (signed z ∷ f) = none

abbrev pub unsigned : List Token → Option (ℕ × List Token)
unsigned [] = none
unsigned (word w ∷ f) = none
unsigned (number n ∷ f) = some (n, f)
unsigned (signed z ∷ f) = none

abbrev pub int : List Token → Option (ℤ × List Token)
int [] = none
int (word w ∷ f) = none
int (number n ∷ f) = none
int (signed z ∷ f) = some (z, f)

abbrev pub tokens : Scanf (List Token)
tokens = record {
  string = string;
  unsigned = unsigned;
  long = unsigned;
  int = int;
  put_string = λ w f. word w ∷ f;
  put_unsigned = λ n f. number n ∷ f;
  put_long = λ n f. number n ∷ f;
  put_int = λ z f. signed z ∷ f;
  string-put_string = λ w f h. refl;
  unsigned-put_unsigned = λ n f h. refl;
  long-put_long = λ n f h. refl;
  int-put_int = λ z f h. refl;
}

abbrev pub program : List Inst
program =
    record { opcode = calc; arg_0 = 1; arg_1 = 2; arg_2 = 3 }
    ∷ record { opcode = write; arg_0 = 100; arg_1 = 1; arg_2 = 20 }
    ∷ []

-- what `malloc` left
abbrev pub old_pcb : Pcb
old_pcb = record {
  pid = 0;
  priority = 0;
  code = [];
  regs = 0 ∷ 0 ∷ [];
  pc = 99;
  prio = 0;
  mm = record { pgd = []; mmap = []; symrgtbl = []; fifo_pgn = [] };
  active_mswp = 0;
  bp = 0;
}

abbrev pub old_inst : ℕ → Inst
old_inst i = record { opcode = write; arg_0 = i; arg_1 = i; arg_2 = i }

load-put_process_example :
    load tokens 4 (some (put_process tokens 1 program [])) old_pcb 77 old_inst
    ≡ ok (
      record old_pcb {
        pid = 4;
        priority = 1;
        code =
            record { opcode = calc; arg_0 = 0; arg_1 = 0; arg_2 = 0 }
            ∷ record { opcode = write; arg_0 = 100; arg_1 = 1; arg_2 = 20 }
            ∷ [];
        pc = 0;
        bp = page_size;
      },
      5,
    )
load-put_process_example =
    load-put_process tokens 4 1 program [] old_pcb 77 old_inst (omega arith) (omega arith)
      ((omega arith, omega arith, omega arith), ((omega arith, omega arith, omega arith), tt))
