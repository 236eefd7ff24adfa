-- ===== src/Sandbox/Exec/Unended.antt =====
-- A script of one line without a newline.
use libdbos.Common.{
  ℕ, ◌+◌, ◌-◌, ◌<◌, ◌≡◌, refl, sym, ap, ◌∙◌, true, false, ◌||◌, some, [], ◌∷◌, ◌++◌, eq→==, ne→==,
  lt→ltb, le→ltb, arith,
}
use libdbos.Sandbox.Exec.{
  Page, page_size, read_page, put_zero, sandbox_path, ld_path, filename, null, page_text, runs,
  copy_argv, is_blank, ends_line, arg_end, is_elf, exec_execev,
}
use libdbos.Sandbox.Exec.Scan.{IsFirstLine, end_lem, with_arg_lem, scan_over}

-- A file of `2 + k + n` bytes: two bytes, the first one `#`, then `k` blanks and a word.
pub record IsOneLine (file : Page) (k n : ℕ) : Type 0 where
  pub hash : file 0 ≡ b'#'
  pub blanks : (j : ℕ) → j < k → is_blank (file (2 + j)) ≡ true
  pub word : (j : ℕ) → j < n → (is_blank (file (2 + k + j)) || ends_line (file (2 + k + j))) ≡ false
  pub some_word : 0 < n
  pub in_page : 2 + k + n < page_size

module _ (file stack : Page) (k n : ℕ) (line : IsOneLine file k n) where
  abbrev page : Page
  page = read_page file (2 + k + n) stack

  of_file : (p : ℕ) → p < 2 + k + n → page p ≡ file p
  of_file p h = rw (lt→ltb p (2 + k + n) h) refl

  at_end : page (2 + k + n) ≡ 0
  at_end =
      rw (le→ltb (2 + k + n) (2 + k + n) (omega arith), eq→== (2 + k + n) (2 + k + n) refl) refl

  page-IsFirstLine : IsFirstLine page k n
  page-IsFirstLine = record {
    blanks = λ j h. ap is_blank (of_file (2 + j) (omega arith)) ∙ line.blanks j h;
    word = λ j h.
        ap (λ (c : ℕ). is_blank c || ends_line c) (of_file (2 + k + j) (omega arith))
        ∙ line.word j h;
    some_word = line.some_word;
    ended = rw at_end refl;
    in_page = line.in_page;
  }

  past_end : arg_end page ≡ 2 + k + n
  past_end =
      let e : 2 + k + n + 0 ≡ 2 + k + n = omega arith in
      rw (end_lem page k n page-IsFirstLine) (
        scan_over ends_line page 0 (page_size - (2 + k + n)) (2 + k + n)
          (omega (arith, line.in_page)) (λ j h. absurd (omega arith))
          (ap ends_line (ap page e ∙ at_end))
        ∙ omega arith)

-- A script that consists of a line without a newline, of fewer than 4096 bytes, is run with an
-- argument that is not in the file: its string begins behind the zero byte after the last byte
-- read, where the page has whatever the stack held.
pub exec_execev-unended :
    (file stack : Page) (k n arglen : ℕ)
    → IsOneLine file k n
    → (page' : Page) × (exec_execev (some file) (2 + k + n) stack arglen
        ≡ some (
            runs page' (
              sandbox_path
                ∷ ld_path
                ∷ page_text (2 + k)
                ∷ page_text (2 + k + n + 1)
                ∷ filename
                ∷ copy_argv arglen 0
              ++ null ∷ [])))
      × ((j : ℕ) → page' (2 + k + n + 1 + j) ≡ stack (2 + k + n + 1 + j))
unfolding exec_execev
exec_execev-unended file stack k n arglen line = (
  put_zero (2 + k + n) (put_zero (2 + k + n) (page file stack k n line)),
  rw (le→ltb (2 + k + n) 2 (omega arith), not_elf, hash_byte)
      (with_arg_lem (page file stack k n line) k n (page-IsFirstLine file stack k n line) arglen
        (2 + k + n) (λ e. absurd (no_newline (sym (at_end file stack k n line) ∙ e)))
        (past_end file stack k n line) line.in_page),
  λ j.
      rw
        (
          ne→== (2 + k + n + 1 + j) (2 + k + n) (λ e. absurd (omega (arith, e))),
          le→ltb (2 + k + n + 1 + j) (2 + k + n) (omega arith),
        )
        refl,
)
  where
    hash_byte : page file stack k n line 0 ≡ b'#'
    hash_byte = of_file file stack k n line 0 (omega arith) ∙ line.hash

    not_elf : is_elf (page file stack k n line) ≡ false
    not_elf = rw hash_byte refl

    no_newline : ◌≡◌ {A = ℕ} 0 b'\n' → ⊥
    no_newline e = omega arith
