-- ===== src/Sandbox/Tests.antt =====
-- Runs of the handler of system calls, with some numbers of Linux for x86-64.
use libdbos.Common.{
  ℕ, ◌+◌, ◌/◌, ◌%◌, ◌^◌, ◌≤◌, ◌<◌, ◌≡◌, ◌≢◌, ◌↔◌, refl, Bool, true, false, ◌&&◌, ◌||◌, Option, none,
  some, [], List, length, ◌>>=◌, ◌*◌, ◌∷◌, ◌++◌, zero, suc, leb, ltb, ◌==◌, if◌then◌else◌, arith,
}
use libdbos.Umm.{Sys, read_write}
use libdbos.Umm.Inv.{IsApart, IsBase}
use libdbos.Umm.Calls.Base.{IsBounded}
use libdbos.Umm.Tests.{granting, mapping, errors, layout}
use libdbos.Sandbox.Check.{Bytes, string_fails, find_zero}
use libdbos.Sandbox.Params.{
  Sysno, sys_read, sys_write, sys_mmap, sys_bind, sys_connect, sys_open, other, Abi, TrapFrame,
  pass, check_params, end_params, switch_params,
}
use libdbos.Sandbox.Params.Accesses.{IsSafe, All, accesses}
use libdbos.Sandbox.Params.Safe.{check_params-Safe}
use libdbos.Sandbox.Exec.{
  Page, sandbox_path, ld_path, filename, null, page_text, runs, copy_argv, is_blank, ends_line,
  script_args, exec_execev,
}
use libdbos.Sandbox.Exec.Script.{Shebang, argument, new_page, new_argv, Texts, script_args-runs}
use libdbos.Sandbox.Exec.Unended.{IsOneLine, exec_execev-unended}
use libdbos.Sandbox.Start.{Text, ElfData, Auxv, find_aux_entry, setup_arguments}
use libdbos.Sandbox.Start.Stack.{words_at, texts_at, total, Packed}
use libdbos.Sandbox.Start.Layout.{
  AuxValues, HasValues, all_strings, stack_words, on_stack, stack_need, setup_arguments-layout,
}
use libdbos.Sandbox.Handler.{Ops, Machine, syscall_handler}
use libdbos.Sandbox.Handler.Mediates.{Mediated, syscall_handler-Mediated}
use libdbos.Sandbox.Handler.Heap.{StillApart, syscall_handler-StillApart}

abbrev call_of : ℕ → Sysno
call_of n =
    if n == 0
    then sys_read
    else if n == 1
    then sys_write
    else if n == 2
    then sys_open
    else if n == 9
    then sys_mmap
    else if n == 42
    then sys_connect
    else if n == 49
    then sys_bind
    else other n

abbrev pub linux : Abi
linux = record {
  call = call_of;
  size = λ struct. 128;
  is_plain = λ cmd. leb cmd 4;
  is_lock = λ cmd. leb 5 cmd && leb cmd 7;
  ioc_dir = λ n. n / 2 ^ 30;
  ioc_size = λ n. n / 2 ^ 16 % 2 ^ 14;
  arch_get_fs = 0x1003;
  arch_set_fs = 0x1002;
}

-- Memory with the path `/a`, and a kernel that grants what is not too large and counts the calls.
abbrev path_memory : Bytes
path_memory p = if p == 0x40_0000 then b'/' else if p == 0x40_0001 then b'a' else 0

abbrev fits : (addr len : ℕ) → ℕ × ℕ
fits addr len = if ltb len (2 ^ 63) then (addr, 0) else (addr + 1, 12)

abbrev bounded : Sys ℕ
bounded = record granting {
  mmap_anon = λ w addr len prot big. ((fits addr len).0, (fits addr len).1, w + 1);
  mmap_file = λ w addr len prot flags fd offset. ((fits addr len).0, (fits addr len).1, w + 1);
  mremap = λ w old_address old_size new_size flags new_address.
      ((fits new_address new_size).0, (fits new_address new_size).1, w + 1);
}

bounded-IsBounded : IsBounded bounded
bounded-IsBounded = record {
  anon = λ w addr len prot big large. (moves addr len large, fails addr len large);
  file = λ w addr len prot flags fd offset large. (moves addr len large, fails addr len large);
  moved =
      λ w old_address old_size new_size flags new_address large. moves new_address new_size large;
  segment = λ w shmid len e. absurd (nowhere len e);
}
  where
    moves : (addr len : ℕ) → 2 ^ 63 ≤ len → (fits addr len).0 ≢ addr
    moves addr len large e = ground arith

    fails : (addr len : ℕ) → 2 ^ 63 ≤ len → (fits addr len).1 ≢ 0
    fails addr len large e = ground arith

    nowhere : (len : ℕ) → none ≡ some len → ⊥
    nowhere len e = cc

abbrev pub ops_with : Bytes → Ops ℕ
ops_with mem = record {
  memory = λ w. mem;
  store_long = λ w addr val. w + 1;
  prot = λ bits. read_write;
  passthrough = λ tf w. (0, w + 1);
  clone = λ tf w. (0, w + 1);
  execve = λ tf w. (0, w + 1);
}

abbrev pub machine : Machine ℕ
machine = record { umm = record { brk_len = 4096; mmap_len = 8192; world = 0 }; user_fs = 0 }

machine-IsApart : IsApart bounded mapping errors layout machine.umm
machine-IsApart = record { apart = omega arith; brk_pages = refl; mmap_pages = refl }

layout-IsBase : IsBase bounded mapping errors layout
layout-IsBase = record { base_pages = refl; room = omega arith }

-- open("/a"), and a mapping of 5000 bytes anywhere.
abbrev open_path : TrapFrame
open_path = record { rax = 2; arg0 = 0x40_0000; arg1 = 0; arg2 = 0; arg3 = 0; arg4 = 0; arg5 = 0 }

abbrev map_pages : TrapFrame
map_pages = record { rax = 9; arg0 = 0; arg1 = 5000; arg2 = 3; arg3 = 34; arg4 = 0; arg5 = 0 }

open_path-pass : check_params linux 0x7ff0_4000_0000 path_memory open_path ≡ pass
unfolding check_params end_params switch_params string_fails find_zero
open_path-pass = refl

check_params-Safe_example :
    All (IsSafe 0x7ff0_4000_0000 path_memory) (accesses linux path_memory sys_open open_path)
check_params-Safe_example =
    check_params-Safe linux 0x7ff0_4000_0000 path_memory (omega arith) (omega arith) open_path
      open_path-pass

abbrev allow_all : Option (TrapFrame → ℕ → Bool × ℕ)
allow_all = some (λ tf w. (true, tf.rax))

syscall_handler-Mediated_example :
    Mediated linux bounded mapping errors layout
      (ops_with path_memory)
      allow_all
      open_path
      machine
      (syscall_handler linux bounded mapping errors layout
        (ops_with path_memory)
        allow_all
        open_path
        machine)
syscall_handler-Mediated_example =
    syscall_handler-Mediated linux bounded mapping errors layout (ops_with path_memory) allow_all
      open_path machine (omega arith) layout-IsBase

syscall_handler-StillApart_example :
    StillApart linux bounded mapping errors layout (ops_with path_memory) (
      syscall_handler linux bounded mapping errors layout
        (ops_with path_memory)
        allow_all
        map_pages
        machine)
syscall_handler-StillApart_example =
    syscall_handler-StillApart linux bounded mapping errors layout (ops_with path_memory) allow_all
      map_pages machine bounded-IsBounded layout-IsBase machine-IsApart (omega arith)

-- `#! sh -e` and a newline; the same without argument and newline.
abbrev script : Page
script p =
    if p == 0
    then b'#'
    else if p == 1
    then b'!'
    else if p == 2 || p == 5
    then b' '
    else if p == 3
    then b's'
    else if p == 4
    then b'h'
    else if p == 6
    then b'-'
    else if p == 7
    then b'e'
    else b'\n'

script-Shebang : Shebang script 1 2 (some 2)
script-Shebang =
    argument
      (record {
        blanks = λ j h. below_one j h;
        word = λ j h. below_two j h;
        some_word = omega arith;
        ended = refl;
        in_page = omega arith;
      })
      refl (λ j h. arg_bytes j h) refl (omega arith)
  where
    below_one : (j : ℕ) → j < 1 → is_blank (script (2 + j)) ≡ true
    below_one zero h = refl
    below_one (suc j) h = absurd (omega arith)

    below_two : (j : ℕ) → j < 2 → (is_blank (script (3 + j)) || ends_line (script (3 + j))) ≡ false
    below_two zero h = refl
    below_two (suc zero) h = refl
    below_two (suc (suc j)) h = absurd (omega arith)

    arg_bytes : (j : ℕ) → j < 2 → ends_line (script (6 + j)) ≡ false
    arg_bytes zero h = refl
    arg_bytes (suc zero) h = refl
    arg_bytes (suc (suc j)) h = absurd (omega arith)

script_args-runs_example :
    (script_args 1 script ≡ some (runs (new_page script 1 2 (some 2)) (new_argv 1 2 (some 2) 1)))
    × Texts script 1 2 (some 2)
script_args-runs_example = script_args-runs script 1 2 1 script-Shebang

script-IsOneLine : IsOneLine script 1 2
script-IsOneLine = record {
  hash = refl;
  blanks = λ j h. one_blank j h;
  word = λ j h. two_letters j h;
  some_word = omega arith;
  in_page = omega arith;
}
  where
    one_blank : (j : ℕ) → j < 1 → is_blank (script (2 + j)) ≡ true
    one_blank zero h = refl
    one_blank (suc j) h = absurd (omega arith)

    two_letters :
        (j : ℕ) → j < 2 → (is_blank (script (3 + j)) || ends_line (script (3 + j))) ≡ false
    two_letters zero h = refl
    two_letters (suc zero) h = refl
    two_letters (suc (suc j)) h = absurd (omega arith)

exec_execev-unended_example :
    (page' : Page) × (exec_execev (some script) 5 (λ p. b'x') 1
      ≡ some (
          runs page' (
            sandbox_path ∷ ld_path ∷ page_text 3 ∷ page_text 6 ∷ filename ∷ copy_argv 1 0
            ++ null ∷ [])))
    × ((j : ℕ) → page' (6 + j) ≡ b'x')
exec_execev-unended_example = exec_execev-unended script (λ p. b'x') 1 2 1 script-IsOneLine

-- A program with two arguments and one variable of the environment.
abbrev two_args : List Text
two_args =
    record { at = 100; bytes = b'a' ∷ b'b' ∷ [] } ∷ record { at = 103; bytes = b'c' ∷ [] } ∷ []

abbrev one_var : List Text
one_var = record { at = 105; bytes = b'X' ∷ b'=' ∷ b'1' ∷ [] } ∷ []

abbrev auxv : Auxv
auxv =
    (16, 7) ∷ (6, 4096) ∷ (17, 100) ∷ (8, 0) ∷ (11, 1000) ∷ (12, 1000) ∷ (13, 100) ∷ (14, 100) ∷ []

abbrev aux_values : AuxValues
aux_values = record {
  hwcap = 7;
  pagesz = 4096;
  clktck = 100;
  flags = 0;
  uid = 1000;
  euid = 1000;
  gid = 100;
  egid = 100;
}

abbrev program : ElfData
program = record { entry = 0x40_1000; phdr = 0x40_0040; phnum = 2 }

auxv-HasValues : HasValues auxv aux_values
unfolding find_aux_entry
auxv-HasValues = record {
  hwcap_found = refl;
  pagesz_found = refl;
  clktck_found = refl;
  flags_found = refl;
  uid_found = refl;
  euid_found = refl;
  gid_found = refl;
  egid_found = refl;
}

two_args-Packed : Packed two_args
unfolding Packed
two_args-Packed = (refl, tt)

one_var-Packed : Packed one_var
unfolding Packed
one_var-Packed = tt

-- The bytes that are counted are 278, so rounding adds 10.
setup_arguments-layout_example :
    ((setup_arguments 4096 (b'p' ∷ []) two_args one_var auxv program >>= λ r. some (on_stack r))
      ≡ some (
        3808,
        (
          words_at 3808 (stack_words 4085 (b'p' ∷ []) two_args one_var aux_values program),
          texts_at 4085 (all_strings (b'p' ∷ []) two_args one_var),
        ),
      ))
    × ((4085 + total (all_strings (b'p' ∷ []) two_args one_var) ≡ 4096)
        × ((3808 + 8 * length (stack_words 4085 (b'p' ∷ []) two_args one_var aux_values program)
              ≤ 4085)
            ↔ (stack_need (b'p' ∷ []) two_args one_var + 8 ≤ 288)))
setup_arguments-layout_example =
    setup_arguments-layout 4096 (b'p' ∷ []) two_args one_var auxv aux_values program auxv-HasValues
      two_args-Packed one_var-Packed (omega arith)
