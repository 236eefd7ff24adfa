-- ===== src/Sandbox/Exec.antt =====
-- `exec_execev` of apps/sandbox/exec.c, up to the call of `execve`: which program is run in a new
-- sandbox, and its arguments.
pub mod Scan
pub mod Script
pub mod Unended
use libdbos.Common.{
  ℕ, zero, suc, ◌+◌, ◌-◌, Bool, true, false, not, ◌&&◌, ◌||◌, Option, none, some, List, [], ◌∷◌,
  ◌++◌, ltb, leb, ◌==◌, if◌then◌else◌,
}

-- `page`, of 4096 bytes. An access past its end is `none` below.
abbrev pub Page : Type 0
Page = ℕ → ℕ

abbrev pub page_size : ℕ
page_size = 4096

-- What `read` leaves in the page: `len` bytes of the file; a zero byte is put after them where
-- there is room, and the rest of the page is what the stack held.
abbrev pub read_page : (file : Page) (len : ℕ) (stack : Page) → Page
read_page file len stack = λ p. if ltb p len then file p else if p == len then 0 else stack p

abbrev pub put_zero : ℕ → Page → Page
put_zero i page = λ p. if p == i then 0 else page p

-- An entry of `new_argv`: the two constant paths, a string in the page, the path that was asked
-- for, an entry of `argv`, or NULL.
pub data Arg : Type 0 where
  sandbox_path ld_path filename null : Arg
  page_text : (offset : ℕ) → Arg
  argv : (i : ℕ) → Arg

-- The call fails, or `execve` is called with the entries.
pub data Execed : Type 0 where
  fails : Execed
  runs : Page → List Arg → Execed

-- `argv[i]` for `n` entries from `i` on, and the NULL that ends them.
unfoldable pub copy_argv : (n i : ℕ) → List Arg
copy_argv zero i = null ∷ []
copy_argv (suc n) i = argv i ∷ copy_argv n (i + 1)

-- A loop `for (; i < EXECPGSIZE; i++)` with `n` bytes to go, up to a byte that passes the test.
unfoldable pub scan : (test : ℕ → Bool) → Page → (n i : ℕ) → ℕ
scan test page zero i = i
scan test page (suc n) i = elim (test (page i)) [ true ↦ i | false ↦ scan test page n (i + 1) ]

abbrev pub is_blank : ℕ → Bool
is_blank c = c == b' ' || c == b'\t'

abbrev pub ends_line : ℕ → Bool
ends_line c = c == b'\n' || c == 0

-- The first byte of the interpreter, the byte after it, and the end of the line from there.
abbrev pub interp_begin : Page → ℕ
interp_begin page = scan (λ c. not (is_blank c)) page (page_size - 2) 2

abbrev pub interp_end : Page → ℕ
interp_end page =
    scan (λ c. is_blank c || ends_line c) page (page_size - interp_begin page) (interp_begin page)

abbrev pub arg_end : Page → ℕ
arg_end page = scan ends_line page (page_size - interp_end page) (interp_end page)

-- The entries for a script; `arglen` is the length of `argv`.
unfoldable pub script_args : (arglen : ℕ) → Page → Option Execed
script_args arglen page =
    let ends = interp_end page in
    let last = arg_end page in
    let with_arg = runs (put_zero ends (put_zero last page)) (
      sandbox_path
        ∷ ld_path
        ∷ page_text (interp_begin page)
        ∷ page_text (ends + 1)
        ∷ filename
        ∷ copy_argv arglen 0
      ++ null ∷ []) in
    let no_arg = runs (put_zero ends page) (
      sandbox_path ∷ ld_path ∷ page_text (interp_begin page) ∷ filename ∷ copy_argv arglen 0
      ++ null ∷ []) in
    if interp_begin page == ends
    then some fails
    else if page (interp_begin page) == 0
    then some fails
    else if leb page_size ends
    then none
    else if page ends == b'\n'
    then some no_arg
    else if leb page_size last
    then none
    else some with_arg

-- The entries for an ELF file.
unfoldable pub elf_args : (arglen : ℕ) → Page → Execed
elf_args arglen page = runs page (sandbox_path ∷ ld_path ∷ copy_argv arglen 0 ++ null ∷ [])

abbrev pub is_elf : Page → Bool
is_elf page = page 0 == 0x7f && page 1 == b'E' && page 2 == b'L' && page 3 == b'F'

-- `page[0] == '#' || page[1] == '!'`
abbrev pub is_script : Page → Bool
is_script page = page 0 == b'#' || page 1 == b'!'

-- `exec_execev` on a file of which `read` gives `len` bytes, `none` where it cannot be opened.
unfoldable pub exec_execev :
    (file : Option Page) (len : ℕ) (stack : Page) (arglen : ℕ) → Option Execed
exec_execev none len stack arglen = some fails
exec_execev (some file) len stack arglen =
    let page = read_page file len stack in
    if ltb len 2
    then some fails
    else if is_elf page
    then some (elf_args arglen page)
    else if is_script page
    then script_args arglen page
    else some fails
