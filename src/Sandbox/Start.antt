-- ===== src/Sandbox/Start.antt =====
-- apps/sandbox/main.c: the first stack of the program, with its arguments, its environment and the
-- auxiliary vector, as the writes of `setup_arguments` in their order.
pub mod Stack
pub mod Layout
use libdbos.Common.{
  ℕ, zero, suc, ◌+◌, ◌-◌, ◌*◌, ◌/◌, Option, none, some, ◌>>=◌, List, [], ◌∷◌, ◌++◌, length, ◌==◌,
  if◌then◌else◌, Bool, true, false,
}

-- A string in memory, without its zero byte.
pub record Text : Type 0 where
  pub at : ℕ
  pub bytes : List ℕ

-- A word of 8 bytes, or a string with its zero byte, as `stpcpy` writes it.
pub data Write : Type 0 where
  word : (addr value : ℕ) → Write
  text : (addr : ℕ) (bytes : List ℕ) → Write

-- What the program's file gives: the entry and the program headers.
pub record ElfData : Type 0 where
  pub entry : ℕ
  pub phdr : ℕ
  pub phnum : ℕ

-- The end of the last string.
abbrev pub last_end : (end : ℕ) → List Text → ℕ
last_end end [] = end
last_end end (s ∷ ss) = last_end (s.at + length s.bytes) ss

-- `count_args`: the length from the first string to the end of the last one, with its zero byte.
abbrev pub arglen : List Text → ℕ
arglen [] = 0
arglen (s ∷ ss) = last_end (s.at + length s.bytes) ss - s.at + 1

-- The places of the next pointer and of the next string, and the writes so far.
pub record Cursor : Type 0 where
  pub arg_ptr : ℕ
  pub data_ptr : ℕ
  pub writes : List Write

-- `*arg_ptr = data_ptr; arg_ptr++; data_ptr = stpcpy(data_ptr, s) + 1;`
abbrev pub push_string : List ℕ → Cursor → Cursor
push_string s c = record {
  arg_ptr = c.arg_ptr + 8;
  data_ptr = c.data_ptr + length s + 1;
  writes = c.writes ++ (word c.arg_ptr c.data_ptr ∷ text c.data_ptr s ∷ []);
}

abbrev pub push_word : ℕ → Cursor → Cursor
push_word v c = record c { arg_ptr = c.arg_ptr + 8; writes = c.writes ++ (word c.arg_ptr v ∷ []) }

-- The loops over `argv` and `envv`.
unfoldable pub push_strings : List Text → Cursor → Cursor
push_strings [] c = c
push_strings (s ∷ ss) c = push_strings ss (push_string s.bytes c)

-- The auxiliary vector that the program was started with, up to its end: types and values.
abbrev pub Auxv : Type 0
Auxv = List (ℕ × ℕ)

-- `find_aux_entry`
unfoldable pub find_aux_entry : Auxv → (type : ℕ) → Option ℕ
find_aux_entry [] type = none
find_aux_entry ((t, v) ∷ aux) type =
    let rest = find_aux_entry aux type in if t == type then some v else rest

-- An entry; one that is not found ends the program.
abbrev pub push_entry : (type value : ℕ) → Cursor → Cursor
push_entry type value c = push_word value (push_word type c)

unfoldable pub copy_aux : Auxv → (type : ℕ) → Cursor → Option Cursor
copy_aux ref type c = find_aux_entry ref type >>= λ v. some (push_entry type v c)

-- `setup_aux`, with the types AT_HWCAP to AT_RANDOM; at the end, the type of an entry is 0.
unfoldable pub setup_aux : Auxv → ElfData → Cursor → Option Cursor
setup_aux ref elf c = copy_aux ref 16 c >>= λ c1. copy_aux ref 6 c1 >>= λ c2.
    copy_aux ref 17 c2 >>= λ c3.
    copy_aux ref 8 (push_entry 5 elf.phnum (push_entry 3 elf.phdr c3)) >>= λ c4.
    copy_aux ref 11 (push_entry 9 elf.entry c4) >>= λ c5. copy_aux ref 12 c5 >>= λ c6.
    copy_aux ref 13 c6 >>= λ c7.
    copy_aux ref 14 c7 >>= λ c8. some (push_word 0 (push_entry 25 elf.phdr (push_entry 23 0 c8)))

-- The lengths that `setup_arguments` adds up: of the strings, and of all, as a multiple of 32.
abbrev pub strings_len : (path : List ℕ) (argv envv : List Text) → ℕ
strings_len path argv envv = arglen argv + arglen envv + (length path + 1)

abbrev pub round_32 : ℕ → ℕ
round_32 len = (len + 31) / 32 * 32

abbrev pub stack_len : (path : List ℕ) (argv envv : List Text) → ℕ
stack_len path argv envv =
    round_32 (strings_len path argv envv + 16 * 13 + (length argv + length envv + 4) * 8)

-- `setup_arguments`: the new stack pointer and the writes.
unfoldable pub setup_arguments :
    (sp : ℕ) (path : List ℕ) (argv envv : List Text) → Auxv → ElfData → Option (ℕ × List Write)
setup_arguments sp path argv envv ref elf =
    let new_sp = sp - stack_len path argv envv in
    let start : Cursor = record {
      arg_ptr = new_sp;
      data_ptr = sp - strings_len path argv envv;
      writes = [];
    } in
    let args = push_strings argv (push_string path (push_word (length argv + 1) start)) in
    let envs = push_strings envv (push_word 0 args) in
    setup_aux ref elf (push_word 0 envs) >>= λ c. some (new_sp, c.writes)
