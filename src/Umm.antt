-- ===== src/Umm.antt =====
-- apps/sandbox/umm.c: the memory of the sandboxed program, a heap that grows up from mmap_base and
-- mappings that grow down to it. System calls and the page tables are interfaces.
pub mod World
pub mod Safe
pub mod Inv
pub mod Calls
pub mod Tests
use libdbos.Common.{
  ℕ, ◌+◌, ◌-◌, ◌*◌, ◌/◌, ◌%◌, ◌^◌, Bool, true, false, not, ◌&&◌, ◌||◌, Option, none, some, bit_or,
  ltb, leb, ◌==◌, if◌then◌else◌,
}
use libdbos.Vm.Pte.{or_if, perm_r, perm_w, perm_x, perm_u, perm_big}
use libdbos.Ept.Addr.{DuneLayout, va_to_pa}
pub use libdbos.Umm.World.{
  app_max_elf_vaddr, app_mmap_base_off, app_mmap_len, app_stack_size, Prot, read_write, is_positive,
  Codes, Sys, PageTables, Umm, Result, round_page, prot_to_perm, value, fail,
}
unfoldable pub use libdbos.Umm.World.{mem_ref_is_safe}

module _ {W : Type 0} (sys : Sys W) (tables : PageTables W) (codes : Codes)
    (layout : DuneLayout) where
  abbrev pub mmap_base : ℕ
  mmap_base = layout.base_map

  -- `umm_space_left`
  abbrev pub space_left : Umm W → ℕ → Bool
  space_left u len = ltb ((u.brk_len + u.mmap_len + len) % 2 ^ 64) app_mmap_len

  -- `umm_get_map_pos`
  abbrev pub get_map_pos : Umm W → ℕ
  get_map_pos u = (mmap_base + app_mmap_base_off + 2 ^ 64 - u.mmap_len) % 2 ^ 64

  -- A new mapping of `len` bytes below the others.
  abbrev pub new_addr : Umm W → ℕ → ℕ
  new_addr u len = (get_map_pos u + 2 ^ 64 - round_page len) % 2 ^ 64

  -- The end of the two mapping routines: the page tables, or the mapping is undone.
  pub enter_mapping : (addr len perm : ℕ) → W → Option (ℕ × W)
  enter_mapping addr len perm w = elim (tables.map_phys w addr len (va_to_pa layout addr) perm) [
    | none ↦ none
    | some (ret, w1) ↦
        if ret == 0 then some (0, w1) else (let (r, w2) = sys.munmap w1 addr len in some (ret, w2))
  ]

  -- `umm_mmap_anom`
  pub mmap_anom : (addr len : ℕ) → Prot → Bool → W → Option (ℕ × W)
  mmap_anom addr len prot big w =
      let (mem, errno, w1) = sys.mmap_anon w addr len prot big in
      if mem == addr
      then enter_mapping addr len (or_if big perm_big (prot_to_perm prot)) w1
      else some (errno, w1)

  -- `umm_mmap_file`
  pub mmap_file : (addr len : ℕ) → Prot → (flags : ℕ) → Option ℕ → (offset : ℕ) → W → Option (ℕ × W)
  mmap_file addr len prot flags fd offset w =
      let (mem, errno, w1) = sys.mmap_file w addr len prot flags fd offset in
      if mem == addr then enter_mapping addr len (prot_to_perm prot) w1 else some (errno, w1)

  -- `if (ret) return ret;` and then the state that follows success.
  unfoldable pub on_success :
      Umm W → Option (ℕ × W) → (W → Result × Umm W) → Option (Result × Umm W)
  on_success u none next = none
  on_success u (some (ret, w)) next =
      some (if ret == 0 then next w else (fail ret, record u { world = w }))

  -- The end of a smaller heap.
  unfoldable pub shrunk : (brk len : ℕ) → Umm W → Option W → Option (Result × Umm W)
  shrunk brk len u none = none
  shrunk brk len u (some w) = some (value brk, record u { brk_len = len; world = w })

  -- The two ways of `umm_brk` to a new length.
  unfoldable pub brk_to : (brk len : ℕ) → Umm W → Option (Result × Umm W)
  brk_to brk len u =
      let shrink = λ (w : W). tables.unmap w (mmap_base + len) (u.brk_len - len) in
      let (ret, w1) = sys.munmap u.world (mmap_base + len) (u.brk_len - len) in
      let grown =
        on_success u (mmap_anom (mmap_base + u.brk_len) (len - u.brk_len) read_write false u.world)
          (λ w. (value brk, record u { brk_len = len; world = w })) in
      if len == u.brk_len
      then some (value brk, u)
      else if ltb len u.brk_len
      then if ret == 0
        then shrunk brk len u (shrink w1)
        else some (fail ret, record u { world = w1 })
      else grown

  -- `umm_brk`
  unfoldable pub umm_brk : ℕ → Umm W → Option (Result × Umm W)
  umm_brk brk u =
      let len = round_page (brk - mmap_base) in
      if brk == 0
      then some (value mmap_base, u)
      else if ltb brk mmap_base
      then some (fail codes.einval, u)
      else if not (space_left u len)
      then some (fail codes.enomem, u)
      else brk_to brk len u

  -- The mapping of `umm_mmap` at `addr`, and the length it takes when `adjust_mmap_len` is set.
  unfoldable pub mmap_at :
      (adjust_mmap_len : Bool) (addr len : ℕ)
      → Prot
      → (flags : ℕ) → Option ℕ
      → (offset : ℕ) → Umm W
      → Option (Result × Umm W)
  mmap_at adjust_mmap_len addr len prot flags fd offset u =
      let done : W → Result × Umm W = λ w. (
        value addr,
        record u {
          world = w;
          mmap_len = if adjust_mmap_len then (u.mmap_len + round_page len) % 2 ^ 64 else u.mmap_len;
        },
      ) in
      if sys.is_anonymous flags
      then on_success u (mmap_anom addr len prot false u.world) done
      else if is_positive fd
      then on_success u (mmap_file addr len prot flags fd offset u.world) done
      else some (fail codes.einval, u)

  -- `umm_mmap`
  unfoldable pub umm_mmap :
      (addr len : ℕ)
      → Prot
      → (flags : ℕ) → Option ℕ
      → (offset : ℕ) → Umm W
      → Option (Result × Umm W)
  umm_mmap addr len prot flags fd offset u =
      if addr == 0
      then (if space_left u len
          then mmap_at true (new_addr u len) len prot flags fd offset u
          else some (fail codes.enomem, u))
      else if mem_ref_is_safe mmap_base addr len
      then mmap_at false addr len prot flags fd offset u
      else some (fail codes.einval, u)

  -- `BIG_PGADDR(len + BIG_PGSIZE - 1)`
  abbrev pub round_big : ℕ → ℕ
  round_big len = (len + 2097151) % 2 ^ 64 / 2097152 * 2097152

  -- `dune_vm_unmap` and then 0
  abbrev pub then_unmap : (addr len : ℕ) → Umm W → W → Option (Result × Umm W)
  then_unmap addr len u w = elim (tables.unmap w addr len) [
    | none ↦ none
    | some w' ↦ some (value 0, record u { world = w' })
  ]

  -- `umm_munmap`, with its second try for large pages
  pub umm_munmap : (addr len : ℕ) → Umm W → Option (Result × Umm W)
  umm_munmap addr len u =
      let (ret, w1) = sys.munmap u.world addr len in
      let (ret2, w2) = sys.munmap w1 addr (round_big len) in
      if not (mem_ref_is_safe mmap_base addr len)
      then some (fail codes.eacces, u)
      else if ret == 0
      then then_unmap addr len u w1
      else if ret2 == 0
      then then_unmap addr (round_big len) u w2
      else some (fail ret2, record u { world = w2 })

  -- `umm_mprotect`, with its assert
  pub umm_mprotect : (addr len : ℕ) → Prot → Umm W → Option (Result × Umm W)
  umm_mprotect addr len prot u =
      let (ret, w1) = sys.mprotect u.world addr len prot in
      if not (mem_ref_is_safe mmap_base addr len)
      then some (fail codes.eacces, u)
      else if not (ret == 0)
      then some (fail ret, record u { world = w1 })
      else elim (tables.mprotect w1 addr len (prot_to_perm prot)) [
        | none ↦ none
        | some (r, w2) ↦ if r == 0 then some (value 0, record u { world = w2 }) else none
      ]

  -- `umm_alloc_stack`: the top of the new stack.
  unfoldable pub umm_alloc_stack : Umm W → Option (Result × Umm W)
  umm_alloc_stack u =
      let base = get_map_pos u in
      let top = base / 4096 * 4096 in
      if not (space_left u app_stack_size)
      then some (fail codes.enomem, u)
      else on_success u
          (mmap_anom ((top + 2 ^ 64 - app_stack_size + 4096) % 2 ^ 64) (app_stack_size - 4096)
            read_write false u.world)
          (λ w. (
            value top,
            record u {
              world = w;
              mmap_len = (u.mmap_len + (app_stack_size + base % 4096)) % 2 ^ 64;
            },
          ))

  -- The end of `umm_shmat`, from the call of `shmat` on: `shmdt` undoes an attachment that the
  -- page tables refuse.
  pub shmat_at :
      (adjust_mmap_len : Bool) (shmid addr shmflg len : ℕ) → Umm W → Option (Result × Umm W)
  shmat_at adjust_mmap_len shmid addr shmflg len u =
      let (mem, errno, w1) = sys.shmat u.world shmid addr shmflg in
      let perm =
        prot_to_perm (record { read = true; write = not (sys.is_rdonly shmflg); exec = false }) in
      let new_len : ℕ =
        if adjust_mmap_len then (u.mmap_len + round_page len) % 2 ^ 64 else u.mmap_len in
      if not (mem == addr)
      then some (fail errno, record u { world = w1 })
      else elim (tables.map_phys w1 addr len (va_to_pa layout addr) perm) [
        | none ↦ none
        | some (ret, w2) ↦
            if ret == 0
            then some (value addr, record u { world = w2; mmap_len = new_len })
            else some (fail ret, record u { world = sys.shmdt w2 addr })
      ]

  -- `umm_shmat`; its result -1, for a segment without a size, is `fail 1`.
  pub umm_shmat : (shmid addr shmflg : ℕ) → Umm W → Option (Result × Umm W)
  umm_shmat shmid addr shmflg u = elim (sys.shm_segsz u.world shmid) [
    | none ↦ some (fail 1, u)
    | some len ↦
        if addr == 0
        then (if space_left u len
            then shmat_at true shmid (new_addr u len) shmflg len u
            else some (fail codes.enomem, u))
        else if mem_ref_is_safe mmap_base addr len
        then shmat_at false shmid addr shmflg len u
        else some (fail codes.einval, u)
  ]

  -- The page tables after a move: the old range out, the new one in; `exit(1)` when they refuse.
  pub remap_tables : (old_address old_size new_address new_size : ℕ) → W → Option W
  remap_tables old_address old_size new_address new_size w =
      elim (tables.unmap w old_address old_size) [
        | none ↦ none
        | some w1 ↦
            elim (tables.map_phys w1 new_address new_size (va_to_pa layout new_address)
              (prot_to_perm read_write)) [
                | none ↦ none
                | some (ret, w2) ↦ if ret == 0 then some w2 else none
              ]
      ]

  -- `umm_mremap` once the new address is known.
  pub mremap_at :
      (adjust_mmap_len : Bool) (old_address old_size new_size flags new_address : ℕ)
      → Umm W
      → Option (Result × Umm W)
  mremap_at adjust_mmap_len old_address old_size new_size flags new_address u =
      let (ret, errno, w1) =
        sys.mremap u.world old_address old_size new_size (sys.move_fixed flags) new_address in
      let new_len : ℕ =
        if adjust_mmap_len then (u.mmap_len + round_page new_size) % 2 ^ 64 else u.mmap_len in
      if not (sys.may_move flags)
      then some (fail codes.einval, u)
      else if not (ret == new_address)
      then some (fail errno, record u { world = w1 })
      else elim (remap_tables old_address old_size new_address new_size w1) [
        | none ↦ none
        | some w2 ↦ some (value ret, record u { mmap_len = new_len; world = w2 })
      ]

  -- `umm_mremap`
  pub umm_mremap :
      (old_address old_size new_size flags new_address : ℕ) → Umm W → Option (Result × Umm W)
  umm_mremap old_address old_size new_size flags new_address u =
      if not (mem_ref_is_safe mmap_base old_address old_size)
      then some (fail codes.eacces, u)
      else if sys.is_fixed flags
      then (if mem_ref_is_safe mmap_base new_address new_size
          then mremap_at false old_address old_size new_size flags new_address u
          else some (fail codes.eacces, u))
      else if space_left u new_size
      then mremap_at true old_address old_size new_size flags (new_addr u new_size) u
      else some (fail codes.enomem, u)
