-- ===== src/Umm/Tests.antt =====
-- Runs of the sandbox's memory with system calls that succeed.
use libdbos.Common.{ℕ, ◌+◌, ◌≡◌, ◌↔◌, refl, true, false, none, some, arith}
use libdbos.Ept.Addr.{DuneLayout}
use libdbos.Umm.{
  read_write, Codes, Sys, PageTables, Umm, round_page, mem_ref_is_safe, umm_brk, umm_mmap,
}
use libdbos.Umm.Safe.{InApp, mem_ref_is_safe_lem}
use libdbos.Umm.Inv.{IsApart, IsBase, Placed, umm_mmap-Placed, Grown, umm_brk-Grown}

-- A kernel that grants every call and counts them.
abbrev pub granting : Sys ℕ
granting = record {
  mmap_anon = λ w addr len prot big. (addr, 0, w + 1);
  mmap_file = λ w addr len prot flags fd offset. (addr, 0, w + 1);
  munmap = λ w addr len. (0, w + 1);
  mprotect = λ w addr len prot. (0, w + 1);
  mremap = λ w old_address old_size new_size flags new_address. (new_address, 0, w + 1);
  shm_segsz = λ w shmid. none;
  shmat = λ w shmid addr shmflg. (addr, 0, w + 1);
  shmdt = λ w addr. w + 1;
  is_anonymous = λ flags. true;
  is_rdonly = λ flags. false;
  is_fixed = λ flags. false;
  may_move = λ flags. true;
  move_fixed = λ flags. flags;
}

abbrev pub mapping : PageTables ℕ
mapping = record {
  map_phys = λ w va len pa perm. some (0, w + 1);
  unmap = λ w va len. some (w + 1);
  mprotect = λ w va len perm. some (0, w + 1);
}

abbrev pub errors : Codes
errors = record { einval = 22; enomem = 12; eacces = 13 }

abbrev pub layout : DuneLayout
layout = record {
  phys_limit = 0x80_0000_0000;
  base_map = 0x7ff0_4000_0000;
  base_stack = 0x7fff_c000_0000;
}

-- One page of heap and two of mappings.
abbrev small : Umm ℕ
small = record { brk_len = 4096; mmap_len = 8192; world = 0 }

small-IsApart : IsApart granting mapping errors layout small
small-IsApart = record { apart = omega arith; brk_pages = refl; mmap_pages = refl }

layout-IsBase : IsBase granting mapping errors layout
layout-IsBase = record { base_pages = refl; room = omega arith }

umm_mmap-Placed_example :
    Placed granting mapping errors layout small
      (round_page 5000)
      (umm_mmap granting mapping errors layout 0 5000 read_write 0 none 0 small)
umm_mmap-Placed_example =
    umm_mmap-Placed granting mapping errors layout small 5000 read_write 0 none 0 small-IsApart
      layout-IsBase (omega arith)

umm_brk-Grown_example :
    Grown granting mapping errors layout small 0x7ff0_4000_2fff
      (umm_brk granting mapping errors layout 0x7ff0_4000_2fff small)
umm_brk-Grown_example =
    umm_brk-Grown granting mapping errors layout small 0x7ff0_4000_2fff small-IsApart layout-IsBase
      (omega arith)

mem_ref_is_safe_lem_example :
    (mem_ref_is_safe 0x7ff0_4000_0000 0x7ff0_4000_1000 4096 ≡ true)
    ↔ InApp 0x7ff0_4000_0000 0x7ff0_4000_1000 (0x7ff0_4000_1000 + 4096)
mem_ref_is_safe_lem_example =
    mem_ref_is_safe_lem 0x7ff0_4000_0000 0x7ff0_4000_1000 4096 (omega arith) (omega arith)
