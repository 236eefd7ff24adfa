-- ===== src/Sandbox/Start/Layout.antt =====
-- The first stack of the program, from the strings and the auxiliary vector of the loader.
use libdbos.Common.{
  ℕ, suc, ◌+◌, ◌-◌, ◌*◌, ◌≤◌, ◌≡◌, ◌↔◌, refl, ◌∙◌, sym, ap, some, ◌>>=◌, List, [], ◌∷◌, ◌++◌,
  length, map, length-append, arith,
}
use mathlib.Core.List.{append_assoc, append-nil}
use mathlib.Core.Path.{subst}
use libdbos.Sandbox.Start.{
  Text, Write, ElfData, last_end, arglen, Cursor, push_string, push_word, push_strings, Auxv,
  find_aux_entry, copy_aux, setup_aux, strings_len, stack_len, setup_arguments,
}
use libdbos.Sandbox.Start.Stack.{
  words, texts, words_at, texts_at, starts, total, Packed, Laid, push_word-Laid, push_strings-Laid,
  push_string-Laid,
}

-- The values that the loader's auxiliary vector has for the types that are passed on.
pub record AuxValues : Type 0 where
  pub hwcap : ℕ
  pub pagesz : ℕ
  pub clktck : ℕ
  pub flags : ℕ
  pub uid : ℕ
  pub euid : ℕ
  pub gid : ℕ
  pub egid : ℕ

pub record HasValues (ref : Auxv) (v : AuxValues) : Type 0 where
  pub hwcap_found : find_aux_entry ref 16 ≡ some v.hwcap
  pub pagesz_found : find_aux_entry ref 6 ≡ some v.pagesz
  pub clktck_found : find_aux_entry ref 17 ≡ some v.clktck
  pub flags_found : find_aux_entry ref 8 ≡ some v.flags
  pub uid_found : find_aux_entry ref 11 ≡ some v.uid
  pub euid_found : find_aux_entry ref 12 ≡ some v.euid
  pub gid_found : find_aux_entry ref 13 ≡ some v.gid
  pub egid_found : find_aux_entry ref 14 ≡ some v.egid

-- The words of the new auxiliary vector, and the cursor behind it.
abbrev pub aux_words : AuxValues → ElfData → List ℕ
aux_words v elf =
    16 ∷ v.hwcap ∷ 6 ∷ v.pagesz ∷ 17 ∷ v.clktck ∷ 3 ∷ elf.phdr ∷ 5 ∷ elf.phnum ∷ 8 ∷ v.flags ∷ 9
    ∷ elf.entry ∷ 11 ∷ v.uid ∷ 12 ∷ v.euid ∷ 13 ∷ v.gid ∷ 14 ∷ v.egid ∷ 23 ∷ 0 ∷ 25 ∷ elf.phdr ∷ 0
    ∷ []

unfoldable push_words : List ℕ → Cursor → Cursor
push_words [] c = c
push_words (v ∷ vs) c = push_words vs (push_word v c)

push_words-Laid :
    {addr texts_base : ℕ} (ws : List ℕ) {vs : List ℕ} {ss : List (List ℕ)} {c : Cursor}
    → Laid addr texts_base vs ss c
    → Laid addr texts_base (vs ++ ws) ss (push_words ws c)
unfolding push_words
push_words-Laid {addr} {texts_base} [] {vs} {ss} {c} laid =
    subst (λ us. Laid addr texts_base us ss c) (sym (append-nil vs)) laid
push_words-Laid {addr} {texts_base} (w ∷ ws) {vs} {ss} {c} laid =
    subst (λ us. Laid addr texts_base us ss (push_words ws (push_word w c)))
      (append_assoc vs (w ∷ []) ws) (push_words-Laid ws (push_word-Laid w laid))

setup_aux_lem :
    (ref : Auxv) (v : AuxValues) (elf : ElfData) (c : Cursor)
    → HasValues ref v
    → setup_aux ref elf c ≡ some (push_words (aux_words v elf) c)
unfolding setup_aux copy_aux push_words
setup_aux_lem ref v elf c found =
    rw
      (
        found.hwcap_found, found.pagesz_found, found.clktck_found, found.flags_found,
        found.uid_found, found.euid_found, found.gid_found, found.egid_found,
      )
      refl

-- The argument count, the arguments with the path first, the environment, each list with a zero at
-- its end, and the auxiliary vector.
abbrev strings_of : List Text → List (List ℕ)
strings_of ts = map (λ t. t.bytes) ts

abbrev pub all_strings : (path : List ℕ) (argv envv : List Text) → List (List ℕ)
all_strings path argv envv = (path ∷ strings_of argv) ++ strings_of envv

abbrev pub stack_words :
    (texts_base : ℕ) (path : List ℕ) (argv envv : List Text) → AuxValues → ElfData → List ℕ
stack_words texts_base path argv envv v elf =
    (length argv + 1) ∷ starts texts_base (path ∷ strings_of argv)
    ++ (0 ∷ starts (texts_base + total (path ∷ strings_of argv)) (strings_of envv)
        ++ (0 ∷ aux_words v elf))

-- What is on the stack: its words from the stack pointer up, and its strings.
abbrev pub on_stack : ℕ × List Write → ℕ × (List (ℕ × ℕ) × List (ℕ × List ℕ))
on_stack r = (r.0, (words r.1, texts r.1))

append-zeros :
    (xs ys zs : List ℕ) → (((xs ++ 0 ∷ []) ++ ys) ++ 0 ∷ []) ++ zs ≡ xs ++ (0 ∷ ys ++ (0 ∷ zs))
append-zeros xs ys zs =
    append_assoc ((xs ++ 0 ∷ []) ++ ys) (0 ∷ []) zs
    ∙ append_assoc (xs ++ 0 ∷ []) ys (0 ∷ zs)
    ∙ append_assoc xs (0 ∷ []) (ys ++ 0 ∷ zs)

-- The cursor of `setup_arguments` at its end.
abbrev aux_cursor : (addr texts_base : ℕ) (path : List ℕ) (argv envv : List Text) → Cursor
aux_cursor addr texts_base path argv envv = push_word 0 (
    push_strings envv (
      push_word 0 (
        push_strings argv (
          push_string path (
            push_word (length argv + 1)
              record { arg_ptr = addr; data_ptr = texts_base; writes = [] })))))

abbrev last_cursor :
    (addr texts_base : ℕ) (path : List ℕ) (argv envv : List Text) → AuxValues → ElfData → Cursor
last_cursor addr texts_base path argv envv v elf =
    push_words (aux_words v elf) (aux_cursor addr texts_base path argv envv)

last_cursor-Laid :
    (addr texts_base : ℕ) (path : List ℕ) (argv envv : List Text) (v : AuxValues) (elf : ElfData)
    → Laid addr texts_base
        (stack_words texts_base path argv envv v elf)
        (all_strings path argv envv)
        (last_cursor addr texts_base path argv envv v elf)
unfolding words texts words_at texts_at starts total
last_cursor-Laid addr texts_base path argv envv v elf =
    subst (λ us. Laid addr texts_base us (all_strings path argv envv) done) to_words
      (push_words-Laid (aux_words v elf) (
        push_word-Laid 0 (
          push_strings-Laid envv (
            push_word-Laid 0 (
              push_strings-Laid argv (
                push_string-Laid path
                  (push_word-Laid {vs = []} {ss = []} (length argv + 1) empty)))))))
  where
    done : Cursor
    done = last_cursor addr texts_base path argv envv v elf

    first : List ℕ
    first = starts (texts_base + total (path ∷ [])) (strings_of argv)

    second : List ℕ
    second = starts (texts_base + total (path ∷ strings_of argv)) (strings_of envv)

    behind : ℕ → List ℕ
    behind a = starts a (strings_of argv) ++ (0 ∷ second ++ (0 ∷ aux_words v elf))

    no_texts : texts_base + 0 ≡ texts_base
    no_texts = omega arith

    one_text : texts_base + (length path + 1 + 0) ≡ texts_base + length path + 1
    one_text = omega arith

    to_words :
        (length argv + 1) ∷ (texts_base + 0) ∷ (((first ++ 0 ∷ []) ++ second) ++ 0 ∷ [])
          ++ aux_words v elf
        ≡ stack_words texts_base path argv envv v elf
    to_words =
        ap (λ l. (length argv + 1) ∷ (texts_base + 0) ∷ l)
          (append-zeros first second (aux_words v elf))
        ∙ ap (λ a. (length argv + 1) ∷ a ∷ behind (texts_base + (length path + 1 + 0))) no_texts
        ∙ ap (λ a. (length argv + 1) ∷ texts_base ∷ behind a) one_text

    empty : Laid addr texts_base [] [] record { arg_ptr = addr; data_ptr = texts_base; writes = [] }
    empty = record {
      arg_end = omega arith;
      data_end = omega arith;
      words_done = refl;
      texts_done = refl;
    }

setup_arguments_lem :
    (sp : ℕ) (path : List ℕ) (argv envv : List Text) (ref : Auxv) (v : AuxValues) (elf : ElfData)
    → HasValues ref v
    → (setup_arguments sp path argv envv ref elf >>= λ r. some (on_stack r))
      ≡ some (
        sp - stack_len path argv envv,
        (
          words_at
              (sp - stack_len path argv envv)
              (stack_words (sp - strings_len path argv envv) path argv envv v elf),
          texts_at (sp - strings_len path argv envv) (all_strings path argv envv),
        ),
      )
unfolding setup_arguments
setup_arguments_lem sp path argv envv ref v elf found =
    rw (setup_aux_lem ref v elf (aux_cursor addr texts_base path argv envv) found) (
      ap (λ p. some (addr, p))
        (ap (λ l. (l, texts done.writes)) laid.words_done
          ∙ ap (λ l. (words_at addr (stack_words texts_base path argv envv v elf), l))
              laid.texts_done))
  where
    addr : ℕ
    addr = sp - stack_len path argv envv

    texts_base : ℕ
    texts_base = sp - strings_len path argv envv

    done : Cursor
    done = last_cursor addr texts_base path argv envv v elf

    laid :
        Laid addr texts_base
          (stack_words texts_base path argv envv v elf)
          (all_strings path argv envv)
          done
    laid = last_cursor-Laid addr texts_base path argv envv v elf

last_end_lem :
    (s : Text) (ss : List Text)
    → Packed (s ∷ ss)
    → last_end (s.at + length s.bytes) ss + 1 ≡ s.at + total (strings_of (s ∷ ss))
unfolding Packed total
last_end_lem s [] packed = omega arith
last_end_lem s (t ∷ ss) packed = omega (arith, last_end_lem t ss packed.1, packed.0)

arglen_lem : (ss : List Text) → Packed ss → arglen ss ≡ total (strings_of ss)
unfolding total
arglen_lem [] packed = refl
arglen_lem (s ∷ ss) packed = omega (arith, last_end_lem s ss packed)

total-append_list : (xs ys : List (List ℕ)) → total (xs ++ ys) ≡ total xs + total ys
unfolding total
total-append_list [] ys = omega arith
total-append_list (x ∷ xs) ys = omega (arith, total-append_list xs ys)

length-starts : (addr : ℕ) (ss : List Text) → length (starts addr (strings_of ss)) ≡ length ss
unfolding starts
length-starts addr [] = refl
length-starts addr (s ∷ ss) = ap suc (length-starts (addr + length s.bytes + 1) ss)

length-stack_words :
    (texts_base : ℕ) (path : List ℕ) (argv envv : List Text) (v : AuxValues) (elf : ElfData)
    → length (stack_words texts_base path argv envv v elf) ≡ length argv + length envv + 31
unfolding starts
length-stack_words texts_base path argv envv v elf = omega (
  arith,
  length-append (starts (texts_base + length path + 1) (strings_of argv))
      (0 ∷ second ++ (0 ∷ aux_words v elf)),
  length-append second (0 ∷ aux_words v elf),
  length-starts (texts_base + length path + 1) argv,
  length-starts (texts_base + total (path ∷ strings_of argv)) envv,
)
  where
    second : List ℕ
    second = starts (texts_base + total (path ∷ strings_of argv)) (strings_of envv)

-- The bytes that `setup_arguments` counts.
abbrev pub stack_need : (path : List ℕ) (argv envv : List Text) → ℕ
stack_need path argv envv =
    strings_len path argv envv + 16 * 13 + (length argv + length envv + 4) * 8

-- Where the auxiliary vector of the loader has all eight values, the strings of `argv` and of `envv`
-- stand one behind the other and the stack has room, `setup_arguments` returns the stack pointer
-- `sp - stack_len`, and it writes from there up the argument count, the addresses of the path and of
-- the arguments, zero, the addresses of the environment, zero and the 27 words of the auxiliary
-- vector, and the strings, one behind the other, up to the top of the stack. The words end where the
-- strings start or before exactly when rounding up to 32 bytes adds 8 bytes or more: no place is
-- counted for the last word, the end of the auxiliary vector.
pub setup_arguments-layout :
    (sp : ℕ) (path : List ℕ) (argv envv : List Text) (ref : Auxv) (v : AuxValues) (elf : ElfData)
    → HasValues ref v
    → Packed argv
    → Packed envv
    → stack_len path argv envv ≤ sp
    → ((setup_arguments sp path argv envv ref elf >>= λ r. some (on_stack r))
        ≡ some (
          sp - stack_len path argv envv,
          (
            words_at
                (sp - stack_len path argv envv)
                (stack_words (sp - strings_len path argv envv) path argv envv v elf),
            texts_at (sp - strings_len path argv envv) (all_strings path argv envv),
          ),
        ))
      × ((sp - strings_len path argv envv + total (all_strings path argv envv) ≡ sp)
          × ((sp
                  - stack_len path argv envv
                  + 8 * length (stack_words (sp - strings_len path argv envv) path argv envv v elf)
                ≤ sp - strings_len path argv envv)
              ↔ (stack_need path argv envv + 8 ≤ stack_len path argv envv)))
unfolding total
setup_arguments-layout sp path argv envv ref v elf found packed_argv packed_envv room =
    (setup_arguments_lem sp path argv envv ref v elf found, (to_the_top, (fits_if, fits_then)))
  where
    need_fits : stack_need path argv envv ≤ stack_len path argv envv
    need_fits = omega arith

    words_length :
        length (stack_words (sp - strings_len path argv envv) path argv envv v elf)
        ≡ length argv + length envv + 31
    words_length = length-stack_words (sp - strings_len path argv envv) path argv envv v elf

    to_the_top : sp - strings_len path argv envv + total (all_strings path argv envv) ≡ sp
    to_the_top = omega (
      arith,
      room,
      need_fits,
      arglen_lem argv packed_argv,
      arglen_lem envv packed_envv,
      total-append_list (path ∷ strings_of argv) (strings_of envv),
    )

    words_end : ℕ
    words_end =
        sp
        - stack_len path argv envv
        + 8 * length (stack_words (sp - strings_len path argv envv) path argv envv v elf)

    fits_if :
        words_end ≤ sp - strings_len path argv envv
        → stack_need path argv envv + 8 ≤ stack_len path argv envv
    fits_if h = omega (arith, room, need_fits, words_length, h)

    fits_then :
        stack_need path argv envv + 8 ≤ stack_len path argv envv
        → words_end ≤ sp - strings_len path argv envv
    fits_then h = omega (arith, room, need_fits, words_length, h)
