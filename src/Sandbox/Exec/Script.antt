-- ===== src/Sandbox/Exec/Script.antt =====
-- A script is run with its interpreter, its argument and its path.
use libdbos.Common.{
  ℕ, ◌+◌, ◌<◌, ◌≡◌, ◌≢◌, true, false, Option, none, some, List, [], ◌∷◌, ◌++◌, arith,
}
use libdbos.Sandbox.Check.Strings.{IsString}
use libdbos.Sandbox.Exec.{
  Page, page_size, put_zero, Arg, sandbox_path, ld_path, filename, null, page_text, runs, copy_argv,
  is_blank, ends_line, arg_end, script_args,
}
use libdbos.Sandbox.Exec.Scan.{
  IsFirstLine, no_arg_lem, with_arg_lem, end_lem, last_lem, interp_text, interp_text_arg, arg_text,
}

-- The first line has only an interpreter, or also an argument of `m` bytes behind one blank.
pub data Shebang (page : Page) (k n : ℕ) : Option ℕ → Type 0 where
  interpreter : IsFirstLine page k n → page (2 + k + n) ≡ b'\n' → Shebang page k n none
  argument :
      {m : ℕ}
      → IsFirstLine page k n
      → is_blank (page (2 + k + n)) ≡ true
      → ((j : ℕ) → j < m → ends_line (page (2 + k + n + 1 + j)) ≡ false)
      → ends_line (page (2 + k + n + 1 + m)) ≡ true
      → 2 + k + n + 1 + m < page_size
      → Shebang page k n (some m)

-- The page and the entries that `execve` gets.
abbrev pub new_page : Page → (k n : ℕ) → Option ℕ → Page
new_page page k n none = put_zero (2 + k + n) page
new_page page k n (some m) = put_zero (2 + k + n) (put_zero (2 + k + n + 1 + m) page)

abbrev pub new_argv : (k n : ℕ) → Option ℕ → (arglen : ℕ) → List Arg
new_argv k n none arglen =
    sandbox_path ∷ ld_path ∷ page_text (2 + k) ∷ filename ∷ copy_argv arglen 0 ++ null ∷ []
new_argv k n (some m) arglen =
    sandbox_path
      ∷ ld_path
      ∷ page_text (2 + k)
      ∷ page_text (2 + k + n + 1)
      ∷ filename
      ∷ copy_argv arglen 0
    ++ null ∷ []

-- The strings that the entries point to.
abbrev pub Texts : Page → (k n : ℕ) → Option ℕ → Type 0
Texts page k n none = IsString (new_page page k n none) (2 + k) n
Texts page k n (some m) =
    IsString (new_page page k n (some m)) (2 + k) n
    × IsString (new_page page k n (some m)) (2 + k + n + 1) m

-- A script whose first line ends in the first 4096 bytes, with an interpreter after two bytes and
-- blanks, and perhaps an argument after one more blank: the sandbox is run on the loader with the
-- interpreter, the argument, the script's path and all entries of `argv`. The interpreter's string
-- is the word of the line and the argument's the rest of the line.
pub script_args-runs :
    (page : Page) (k n arglen : ℕ) {a : Option ℕ}
    → Shebang page k n a
    → (script_args arglen page ≡ some (runs (new_page page k n a) (new_argv k n a arglen)))
      × Texts page k n a
script_args-runs page k n arglen (interpreter line newline) =
    (no_arg_lem page k n line arglen newline, interp_text page k n line)
script_args-runs page k n arglen (argument {m} line blank inner at_end fits) = (
  with_arg_lem page k n line arglen (2 + k + n + 1 + m) (not_newline _ blank) last fits,
  (interp_text_arg page k n line (2 + k + n + 1 + m) (omega arith), arg_text page k n line m inner),
)
  where
    not_newline : (c : ℕ) → is_blank c ≡ true → c ≢ b'\n'
    not_newline c h e = ground arith

    last : arg_end page ≡ 2 + k + n + 1 + m
    last = rw (end_lem page k n line) (last_lem page k n line m blank inner at_end fits)
