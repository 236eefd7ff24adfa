-- ===== src/Sandbox/Start/Stack.antt =====
-- The first stack of the program as the ABI wants it: the words from the stack pointer up, and the
-- strings behind them.
use libdbos.Common.{
  ℕ, suc, ◌+◌, ◌*◌, ◌≡◌, refl, ◌∙◌, sym, ap, List, [], ◌∷◌, ◌++◌, length, map, length-append, arith,
}
use mathlib.Core.List.{append_assoc, append-nil}
use mathlib.Core.Path.{subst}
use libdbos.Sandbox.Start.{Text, Write, word, text, Cursor, push_string, push_word, push_strings}

-- The words that are written, and the strings.
unfoldable pub words : List Write → List (ℕ × ℕ)
words [] = []
words (word a v ∷ ws) = (a, v) ∷ words ws
words (text a s ∷ ws) = words ws

unfoldable pub texts : List Write → List (ℕ × List ℕ)
texts [] = []
texts (word a v ∷ ws) = texts ws
texts (text a s ∷ ws) = (a, s) ∷ texts ws

-- Words one behind the other from an address, and strings with their zero bytes.
unfoldable pub words_at : (addr : ℕ) → List ℕ → List (ℕ × ℕ)
words_at addr [] = []
words_at addr (v ∷ vs) = (addr, v) ∷ words_at (addr + 8) vs

unfoldable pub texts_at : (addr : ℕ) → List (List ℕ) → List (ℕ × List ℕ)
texts_at addr [] = []
texts_at addr (s ∷ ss) = (addr, s) ∷ texts_at (addr + length s + 1) ss

-- The places of strings that stand one behind the other, and their length.
unfoldable pub starts : (addr : ℕ) → List (List ℕ) → List ℕ
starts addr [] = []
starts addr (s ∷ ss) = addr ∷ starts (addr + length s + 1) ss

unfoldable pub total : List (List ℕ) → ℕ
total [] = 0
total (s ∷ ss) = length s + 1 + total ss

-- Strings that stand one behind the other in memory, as the kernel leaves them.
unfoldable pub Packed : List Text → Type 0
Packed [] = Unit
Packed (s ∷ []) = Unit
Packed (s ∷ t ∷ ss) = (t.at ≡ s.at + length s.bytes + 1) × Packed (t ∷ ss)

pub length-map-bytes : (ss : List Text) → length (map (λ s. s.bytes) ss) ≡ length ss
length-map-bytes [] = refl
length-map-bytes (s ∷ ss) = ap suc (length-map-bytes ss)

words-append : (xs ys : List Write) → words (xs ++ ys) ≡ words xs ++ words ys
unfolding words
words-append [] ys = refl
words-append (word a v ∷ xs) ys = ap (λ l. (a, v) ∷ l) (words-append xs ys)
words-append (text a s ∷ xs) ys = words-append xs ys

texts-append : (xs ys : List Write) → texts (xs ++ ys) ≡ texts xs ++ texts ys
unfolding texts
texts-append [] ys = refl
texts-append (word a v ∷ xs) ys = texts-append xs ys
texts-append (text a s ∷ xs) ys = ap (λ l. (a, s) ∷ l) (texts-append xs ys)

plus_zero : (n : ℕ) → n ≡ n + 0
plus_zero n = omega arith

words_at-append :
    (addr : ℕ) (vs : List ℕ) (v : ℕ)
    → words_at addr (vs ++ v ∷ []) ≡ words_at addr vs ++ (addr + 8 * length vs, v) ∷ []
unfolding words_at
words_at-append addr [] v = ap (λ a. (a, v) ∷ []) (plus_zero addr)
words_at-append addr (x ∷ vs) v =
    ap (λ l. (addr, x) ∷ l)
      (words_at-append (addr + 8) vs v ∙ ap (λ a. words_at (addr + 8) vs ++ (a, v) ∷ []) at_end)
  where
    at_end : addr + 8 + 8 * length vs ≡ addr + 8 * suc (length vs)
    at_end = omega arith

total-append : (ss : List (List ℕ)) (s : List ℕ) → total (ss ++ s ∷ []) ≡ total ss + length s + 1
unfolding total
total-append [] s = omega arith
total-append (t ∷ ss) s = omega (arith, total-append ss s)

texts_at-append :
    (addr : ℕ) (ss : List (List ℕ)) (s : List ℕ)
    → texts_at addr (ss ++ s ∷ []) ≡ texts_at addr ss ++ (addr + total ss, s) ∷ []
unfolding texts_at total
texts_at-append addr [] s = ap (λ a. (a, s) ∷ []) (plus_zero addr)
texts_at-append addr (t ∷ ss) s =
    ap (λ l. (addr, t) ∷ l)
      (texts_at-append (addr + length t + 1) ss s
        ∙ ap (λ a. texts_at (addr + length t + 1) ss ++ (a, s) ∷ []) at_end)
  where
    at_end : addr + length t + 1 + total ss ≡ addr + (length t + 1 + total ss)
    at_end = omega arith

-- The words `vs` stand from `addr` up and the strings `ss` from `texts_base` up, and the cursor is at
-- their ends.
pub record Laid (addr texts_base : ℕ) (vs : List ℕ) (ss : List (List ℕ)) (c : Cursor) : Type 0 where
  pub arg_end : c.arg_ptr ≡ addr + 8 * length vs
  pub data_end : c.data_ptr ≡ texts_base + total ss
  pub words_done : words c.writes ≡ words_at addr vs
  pub texts_done : texts c.writes ≡ texts_at texts_base ss

module _ {addr texts_base : ℕ} where
  pub push_word-Laid :
      {vs : List ℕ} {ss : List (List ℕ)} {c : Cursor} (v : ℕ)
      → Laid addr texts_base vs ss c
      → Laid addr texts_base (vs ++ v ∷ []) ss (push_word v c)
  unfolding words texts
  push_word-Laid {vs} {ss} {c} v laid = record {
    arg_end = omega (arith, laid.arg_end, length-append vs (v ∷ []));
    data_end = laid.data_end;
    words_done =
        words-append c.writes (word c.arg_ptr v ∷ [])
        ∙ ap (λ l. l ++ (c.arg_ptr, v) ∷ []) laid.words_done
        ∙ ap (λ a. words_at addr vs ++ (a, v) ∷ []) laid.arg_end
        ∙ sym (words_at-append addr vs v);
    texts_done =
        texts-append c.writes (word c.arg_ptr v ∷ [])
        ∙ append-nil (texts c.writes)
        ∙ laid.texts_done;
  }

  pub push_string-Laid :
      {vs : List ℕ} {ss : List (List ℕ)} {c : Cursor} (s : List ℕ)
      → Laid addr texts_base vs ss c
      → Laid addr texts_base (vs ++ (texts_base + total ss) ∷ []) (ss ++ s ∷ []) (push_string s c)
  unfolding words texts
  push_string-Laid {vs} {ss} {c} s laid = record {
    arg_end = omega (arith, laid.arg_end, length-append vs ((texts_base + total ss) ∷ []));
    data_end = omega (arith, laid.data_end, total-append ss s);
    words_done =
        words-append c.writes (word c.arg_ptr c.data_ptr ∷ text c.data_ptr s ∷ [])
        ∙ ap (λ l. l ++ (c.arg_ptr, c.data_ptr) ∷ []) laid.words_done
        ∙ ap (λ a. words_at addr vs ++ (a, c.data_ptr) ∷ []) laid.arg_end
        ∙ ap (λ v. words_at addr vs ++ (addr + 8 * length vs, v) ∷ []) laid.data_end
        ∙ sym (words_at-append addr vs (texts_base + total ss));
    texts_done =
        texts-append c.writes (word c.arg_ptr c.data_ptr ∷ text c.data_ptr s ∷ [])
        ∙ ap (λ l. l ++ (c.data_ptr, s) ∷ []) laid.texts_done
        ∙ ap (λ a. texts_at texts_base ss ++ (a, s) ∷ []) laid.data_end
        ∙ sym (texts_at-append texts_base ss s);
  }

  pub push_strings-Laid :
      (ts : List Text) {vs : List ℕ} {ss : List (List ℕ)} {c : Cursor}
      → Laid addr texts_base vs ss c
      → Laid addr texts_base
          (vs ++ starts (texts_base + total ss) (map (λ t. t.bytes) ts))
          (ss ++ map (λ t. t.bytes) ts)
          (push_strings ts c)
  unfolding push_strings starts
  push_strings-Laid [] {vs} {ss} {c} laid =
      subst (λ us. Laid addr texts_base us (ss ++ []) c) (sym (append-nil vs))
        (subst (λ us. Laid addr texts_base vs us c) (sym (append-nil ss)) laid)
  push_strings-Laid (t ∷ ts) {vs} {ss} {c} laid =
      subst (λ us. Laid addr texts_base us (ss ++ t.bytes ∷ map (λ u. u.bytes) ts) done) words_eq
        (subst (λ us. Laid addr texts_base all_words us done) texts_eq
          (push_strings-Laid ts (push_string-Laid t.bytes laid)))
    where
      done : Cursor
      done = push_strings ts (push_string t.bytes c)

      rest : ℕ → List ℕ
      rest a = starts a (map (λ u. u.bytes) ts)

      all_words : List ℕ
      all_words =
          (vs ++ (texts_base + total ss) ∷ []) ++ rest (texts_base + total (ss ++ t.bytes ∷ []))

      at_end : texts_base + total (ss ++ t.bytes ∷ []) ≡ texts_base + total ss + length t.bytes + 1
      at_end = omega (arith, total-append ss t.bytes)

      words_eq :
          all_words
          ≡ vs ++ (texts_base + total ss) ∷ rest (texts_base + total ss + length t.bytes + 1)
      words_eq =
          append_assoc vs ((texts_base + total ss) ∷ [])
            (rest (texts_base + total (ss ++ t.bytes ∷ [])))
          ∙ ap (λ a. vs ++ (texts_base + total ss) ∷ rest a) at_end

      texts_eq :
          (ss ++ t.bytes ∷ []) ++ map (λ u. u.bytes) ts ≡ ss ++ t.bytes ∷ map (λ u. u.bytes) ts
      texts_eq = append_assoc ss (t.bytes ∷ []) (map (λ u. u.bytes) ts)
