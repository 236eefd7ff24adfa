-- ===== src/Sandbox/Exec/Scan.antt =====
-- What the loops over the first line of a script find.
use libdbos.Common.{
  ℕ, zero, suc, ◌+◌, ◌-◌, ◌<◌, ◌≡◌, ◌≢◌, refl, sym, ap, ◌∙◌, inl, inr, Bool, true, false, not, ◌||◌,
  none, some, [], ◌∷◌, ◌++◌, leb, ◌==◌, eq→==, ne→==, ==→eq, lt→leb, Bool-cases, if◌then◌else◌,
  arith,
}
use libdbos.Sandbox.Check.Strings.{IsString}
use libdbos.Sandbox.Exec.{
  Page, page_size, put_zero, sandbox_path, ld_path, filename, null, page_text, Execed, runs,
  copy_argv, scan, is_blank, ends_line, interp_begin, interp_end, arg_end, script_args,
}

-- A loop stops at the first byte that passes the test.
pub scan_over :
    (test : ℕ → Bool) (page : Page) (k n i : ℕ)
    → k < n
    → ((j : ℕ) → j < k → test (page (i + j)) ≡ false)
    → test (page (i + k)) ≡ true
    → scan test page n i ≡ i + k
unfolding scan
scan_over test page k zero i h before at_end = absurd (omega arith)
scan_over test page zero (suc n) i h before at_end =
    let here : test (page i) ≡ true = ap (λ (p : ℕ). test (page p)) (omega arith) ∙ at_end in
    rw (here, scan) (omega arith)
scan_over test page (suc k) (suc n) i h before at_end =
    let here : test (page i) ≡ false =
      ap (λ (p : ℕ). test (page p)) (omega arith) ∙ before 0 (omega arith) in
    let rest =
      scan_over test page k n (i + 1) (omega arith)
        (λ j small. ap (λ (p : ℕ). test (page p)) (omega arith) ∙ before (suc j) (omega arith))
        (ap (λ (p : ℕ). test (page p)) (omega arith) ∙ at_end) in
    rw (here, scan) (rest ∙ omega arith)

-- A first line: two bytes, `k` blanks, an interpreter of `n` bytes, and what is after it.
pub record IsFirstLine (page : Page) (k n : ℕ) : Type 0 where
  pub blanks : (j : ℕ) → j < k → is_blank (page (2 + j)) ≡ true
  pub word : (j : ℕ) → j < n → (is_blank (page (2 + k + j)) || ends_line (page (2 + k + j))) ≡ false
  pub some_word : 0 < n
  pub ended : (is_blank (page (2 + k + n)) || ends_line (page (2 + k + n))) ≡ true
  pub in_page : 2 + k + n < page_size

parts : (c : ℕ) → (is_blank c || ends_line c) ≡ false → (not (is_blank c) ≡ true) × (c ≢ 0)
parts c h = (ground arith, λ e. ground arith)

module _ (page : Page) (k n : ℕ) (line : IsFirstLine page k n) where
  begin_lem : interp_begin page ≡ 2 + k
  begin_lem =
      scan_over (λ c. not (is_blank c)) page k (page_size - 2) 2 (omega (arith, line.in_page))
        (λ j small. rw (line.blanks j small) refl)
        (ap (λ (p : ℕ). not (is_blank (page p))) (omega arith)
          ∙ (parts (page (2 + k + 0)) (line.word 0 line.some_word)).0)

  pub end_lem : interp_end page ≡ 2 + k + n
  end_lem = rw begin_lem (
      scan_over (λ c. is_blank c || ends_line c) page n (page_size - (2 + k)) (2 + k)
        (omega (arith, line.in_page)) line.word line.ended)

  -- The interpreter as a string, once its end is 0.
  pub interp_text : IsString (put_zero (2 + k + n) page) (2 + k) n
  interp_text = record {
    ended = rw (eq→== (2 + k + n) (2 + k + n) refl) refl;
    no_zero = λ i small e.
        (parts (page (2 + k + i)) (line.word i small)).1
          (sym (rw (ne→== (2 + k + i) (2 + k + n) (λ h. absurd (omega (arith, h)))) refl) ∙ e);
  }

  pub last_lem :
      (m : ℕ)
      → is_blank (page (2 + k + n)) ≡ true
      → ((j : ℕ) → j < m → ends_line (page (2 + k + n + 1 + j)) ≡ false)
      → ends_line (page (2 + k + n + 1 + m)) ≡ true
      → 2 + k + n + 1 + m < page_size
      → scan ends_line page (page_size - (2 + k + n)) (2 + k + n) ≡ 2 + k + n + 1 + m
  last_lem m blank inner at_end fits =
      scan_over ends_line page (suc m) (page_size - (2 + k + n)) (2 + k + n) (omega arith)
        (λ j small. elim (Bool-cases (j == 0)) [
          | inl first ↦
              ap (λ (p : ℕ). ends_line (page p)) (omega (arith, ==→eq j 0 first))
              ∙ blank-inner (page (2 + k + n)) blank
          | inr later ↦
              ap (λ (p : ℕ). ends_line (page p)) (ground arith) ∙ inner (j - 1) (ground arith)
        ])
        (ap (λ (p : ℕ). ends_line (page p)) (omega arith) ∙ at_end)
      ∙ omega arith
    where
      blank-inner : (c : ℕ) → is_blank c ≡ true → ends_line c ≡ false
      blank-inner c h = ground arith

  -- The tests before the entries are written.
  past_tests :
      (no_arg with_arg : Execed)
      → (if interp_begin page == interp_end page
          then some Execed.fails
          else if page (interp_begin page) == 0
          then some Execed.fails
          else if leb page_size (interp_end page)
          then none
          else if page (interp_end page) == b'\n'
          then some no_arg
          else if leb page_size (arg_end page)
          then none
          else some with_arg)
        ≡ (if page (2 + k + n) == b'\n'
            then some no_arg
            else if leb page_size (arg_end page)
            then none
            else some with_arg)
  past_tests no_arg with_arg =
      rw
        (
          end_lem,
          begin_lem,
          ne→== (2 + k) (2 + k + n) (λ h. absurd (omega (arith, h, line.some_word))),
          ne→== (page (2 + k)) 0 (λ h.
              (parts (page (2 + k + 0)) (line.word 0 line.some_word)).1
                (ap page (omega arith) ∙ h)),
          lt→leb page_size (2 + k + n) line.in_page,
        )
        refl

  pub no_arg_lem :
      (arglen : ℕ)
      → page (2 + k + n) ≡ b'\n'
      → script_args arglen page
        ≡ some (
            runs (put_zero (2 + k + n) page) (
              sandbox_path ∷ ld_path ∷ page_text (2 + k) ∷ filename ∷ copy_argv arglen 0
              ++ null ∷ []))
  unfolding script_args
  no_arg_lem arglen h = past_tests _ _ ∙ rw (eq→== _ _ h, end_lem, begin_lem) refl

  -- The line goes on behind the interpreter, or the page has a zero byte there; `last` is its end.
  pub with_arg_lem :
      (arglen last : ℕ)
      → page (2 + k + n) ≢ b'\n'
      → arg_end page ≡ last
      → last < page_size
      → script_args arglen page
        ≡ some (
            runs (put_zero (2 + k + n) (put_zero last page)) (
              sandbox_path
                ∷ ld_path
                ∷ page_text (2 + k)
                ∷ page_text (2 + k + n + 1)
                ∷ filename
                ∷ copy_argv arglen 0
              ++ null ∷ []))
  unfolding script_args
  with_arg_lem arglen last h e fits =
      past_tests _ _
      ∙ rw (ne→== (page (2 + k + n)) b'\n' h, e, lt→leb page_size last fits, end_lem, begin_lem)
          refl

  -- The argument as a string, once the byte after it is 0.
  pub arg_text :
      (m : ℕ)
      → ((j : ℕ) → j < m → ends_line (page (2 + k + n + 1 + j)) ≡ false)
      → IsString (put_zero (2 + k + n) (put_zero (2 + k + n + 1 + m) page)) (2 + k + n + 1) m
  arg_text m inner = record {
    ended =
        rw
          (
            ne→== (2 + k + n + 1 + m) (2 + k + n) (λ h. absurd (omega (arith, h))),
            eq→== (2 + k + n + 1 + m) (2 + k + n + 1 + m) refl,
          )
          refl;
    no_zero = λ j small e. no_end (page (2 + k + n + 1 + j)) (inner j small) (
        sym (
          rw
            (
              ne→== (2 + k + n + 1 + j) (2 + k + n) (λ h. absurd (omega (arith, h))),
              ne→== (2 + k + n + 1 + j) (2 + k + n + 1 + m) (λ h. absurd (omega (arith, h))),
            )
            refl)
        ∙ e);
  }
    where
      no_end : (c : ℕ) → ends_line c ≡ false → c ≢ 0
      no_end c h e = ground arith

  -- The interpreter as a string, where the byte at the end of the line is 0, too.
  pub interp_text_arg :
      (last : ℕ) → 2 + k + n < last → IsString (put_zero (2 + k + n) (put_zero last page)) (2 + k) n
  interp_text_arg last h = record {
    ended = rw (eq→== (2 + k + n) (2 + k + n) refl) refl;
    no_zero = λ i small e. (parts (page (2 + k + i)) (line.word i small)).1 (
        sym (
          rw
            (
              ne→== (2 + k + i) (2 + k + n) (λ h'. absurd (omega (arith, h'))),
              ne→== (2 + k + i) last (λ h'. absurd (omega (arith, h'))),
            )
            refl)
        ∙ e);
  }
