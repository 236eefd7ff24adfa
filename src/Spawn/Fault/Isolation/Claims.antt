-- ===== src/Spawn/Fault/Isolation/Claims.antt =====
-- A write of the program does not reach its snapshot.
use libdbos.Common.{ℕ, ◌+◌, ◌≤◌, ◌<◌, ◌≡◌, ◌≢◌, ◌⊎◌}
use libdbos.Vm.Pte.{pte_addr}
use libdbos.Vm.Machine.{PageOps, Machine, store}
use libdbos.Vm.Clone.Fault.{Outside}
use libdbos.Spawn.Fault.Entries.{IsOwned}
use libdbos.Spawn.Fault.Isolation.{GaveBack}

-- No byte of the page is a word of the entry.
abbrev pub Off : ℕ → ℕ → Type 0
Off page pte = (off : ℕ) → off < 4096 → page + off ≢ pte

-- Where the pages and entries stand: none within another.
pub record Layout (shared page pte spte : ℕ) : Type 0 where
  pub entries : pte ≢ spte
  pub pages : (shared + 4096 ≤ page) ⊎ (page + 4096 ≤ shared)
  pub page_pte : Outside page pte
  pub page_spte : Outside page spte
  pub shared_pte : Outside shared pte
  pub shared_spte : Outside shared spte

module _ {S : Type 0} (ops : PageOps S) where
  -- Two owners: the program's entry is for the page of `old` as before, the snapshot's for `page`;
  -- both have the content that the shared page had, and the shared page lost a reference.
  pub record Separated (old page pte spte : ℕ) (s : S) (m m' : Machine S) : Type 0 where
    pub program : IsOwned old (m'.mem pte)
    pub snapshot : IsOwned page (m'.mem spte)
    pub copied : (off : ℕ) → off < 4096 → m'.mem (page + off) ≡ m.mem (pte_addr old + off)
    pub kept : (off : ℕ) → off < 4096 → m'.mem (pte_addr old + off) ≡ m.mem (pte_addr old + off)
    pub gave_back : GaveBack ops (pte_addr old) s m'.pool

  -- What the snapshot reads on its page does not depend on what the program writes on its own.
  abbrev pub Isolated : (old pte spte : ℕ) (m m' : Machine S) → Type 0
  Isolated old pte spte m m' =
      (off v seen : ℕ)
      → off < 4096
      → seen < 4096
      → (store m' (pte_addr (m'.mem pte) + off) v).mem (pte_addr (m'.mem spte) + seen)
        ≡ m.mem (pte_addr old + seen)
