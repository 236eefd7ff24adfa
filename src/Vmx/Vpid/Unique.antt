-- ===== src/Vmx/Vpid/Unique.antt =====
-- No two virtual processors have one identifier.
use libdbos.Common.{
  ℕ, zero, suc, ◌+◌, ◌≤◌, ◌<◌, ◌≡◌, ◌≢◌, refl, sym, ap, ◌∙◌, inl, inr, true, false, leb, leb→lt,
  ◌==◌, eq→==, ne→==, ==→eq, Bool-cases, arith,
}
use mathlib.Core.Bool.{true≢false}
use libdbos.Vmx.Vpid.{
  Vcpus, give_vpid, Step, create, destroy, Starts, Reach, here, next, Bitmap, write_bit,
  find_zero_bit, Allocated, allocate_vpid, free_vpid,
}

-- What the search from `i` finds: the first clear bit, or the end.
record Finds (n i : ℕ) (map : Bitmap) (found : ℕ) : Type 0 where
  pub in_range : (i ≤ found) × (found ≤ i + n)
  pub set_below : (j : ℕ) → i ≤ j → j < found → map j ≡ true
  pub clear : found < i + n → map found ≡ false

find_zero_bit-Finds : (n i : ℕ) (map : Bitmap) → Finds n i map (find_zero_bit n i map)
unfolding find_zero_bit
find_zero_bit-Finds zero i map = record {
  in_range = (omega arith, omega arith);
  set_below = λ j low high. absurd (omega arith);
  clear = λ h. absurd (omega arith);
}
find_zero_bit-Finds (suc n) i map = elim (Bool-cases (map i)) [
  | inr off ↦ rw off (record {
    in_range = (omega arith, omega arith);
    set_below = λ j low high. absurd (omega arith);
    clear = λ h. off;
  })
  | inl on ↦
      let f = find_zero_bit-Finds n (i + 1) map in
      rw on (record {
        in_range = (omega (arith, f.in_range.0), omega (arith, f.in_range.1));
        set_below = λ j low high. elim (Bool-cases (j == i)) [
          | inl same ↦ rw (==→eq j i same) on
          | inr other ↦ f.set_below j (ground arith) high
        ];
        clear = λ h. f.clear (omega arith);
      })
]

-- An allocation takes a clear bit below `nr`, or all `nr` bits are set and it fails.
record Fresh (nr : ℕ) (map : Bitmap) (a : Allocated) : Type 0 where
  pub below : a.vpid < nr
  pub was_clear : map a.vpid ≡ false
  pub taken : a.bitmap ≡ write_bit a.vpid true map

allocate_vpid-Fresh :
    (nr : ℕ) (map : Bitmap)
    → (allocate_vpid nr map).failed ≡ false
    → Fresh nr map (allocate_vpid nr map)
unfolding allocate_vpid
allocate_vpid-Fresh nr map = elim (Bool-cases (leb nr (find_zero_bit nr 0 map))) [
  | inl full ↦ rw full (λ h. absurd (true≢false h))
  | inr free ↦ rw free (λ h. record {
    below = leb→lt nr _ free;
    was_clear = (find_zero_bit-Finds nr 0 map).clear (omega (arith, leb→lt nr _ free));
    taken = refl;
  })
]

-- Each identifier but 0 is a set bit below `nr`, and has one virtual processor.
pub record Valid (nr : ℕ) (s : Vcpus) : Type 0 where
  pub host : s.bitmap 0 ≡ true
  pub below : (k : ℕ) → s.vpid_of k ≢ 0 → s.vpid_of k < nr
  pub taken : (k : ℕ) → s.vpid_of k ≢ 0 → s.bitmap (s.vpid_of k) ≡ true
  pub unique : (k l : ℕ) → s.vpid_of k ≢ 0 → s.vpid_of k ≡ s.vpid_of l → k ≡ l

Starts-Valid : (nr : ℕ) (s : Vcpus) → Starts s → Valid nr s
Starts-Valid nr s b = record {
  host = b.host;
  below = λ k some_id. absurd (some_id (b.none_yet k));
  taken = λ k some_id. absurd (some_id (b.none_yet k));
  unique = λ k l some_id e. absurd (some_id (b.none_yet k));
}

set-keeps : (i j : ℕ) (map : Bitmap) → map j ≡ true → write_bit i true map j ≡ true
set-keeps i j map h = ground arith

differ : (map : Bitmap) (i j : ℕ) → map i ≡ false → map j ≡ true → i ≢ j
differ map i j off on e = true≢false (sym on ∙ ap map (sym e) ∙ off)

create-Valid :
    (nr : ℕ) (s : Vcpus) (vcpu vpid : ℕ)
    → Valid nr s
    → vpid < nr
    → s.bitmap vpid ≡ false
    → Valid nr
        (record { bitmap = write_bit vpid true s.bitmap; vpid_of = give_vpid vcpu vpid s.vpid_of })
create-Valid nr s vcpu vpid v small clear = record {
  host = set-keeps vpid 0 s.bitmap v.host;
  below = λ k. elim (Bool-cases (k == vcpu)) [
    | inl this ↦ rw this (λ some_id. small)
    | inr other ↦ rw other (v.below k)
  ];
  taken = λ k. elim (Bool-cases (k == vcpu)) [
    | inl this ↦ rw this (λ some_id. rw (eq→== vpid vpid refl) refl)
    | inr other ↦ rw other (λ some_id. set-keeps vpid (s.vpid_of k) s.bitmap (v.taken k some_id))
  ];
  unique = λ k l. elim (Bool-cases (k == vcpu)) [
    | inl this ↦ elim (Bool-cases (l == vcpu)) [
      | inl that ↦ λ some_id e. ==→eq k vcpu this ∙ sym (==→eq l vcpu that)
      | inr other ↦
          rw (this, other)
            (λ some_id e.
              absurd
                (differ s.bitmap vpid (s.vpid_of l) clear (v.taken l (λ z. some_id (e ∙ z))) e))
    ]
    | inr other ↦ elim (Bool-cases (l == vcpu)) [
      | inl that ↦
          rw (other, that)
            (λ some_id e.
              absurd (differ s.bitmap vpid (s.vpid_of k) clear (v.taken k some_id) (sym e)))
      | inr another ↦ rw (other, another) (v.unique k l)
    ]
  ];
}

-- The bits that `vmx_free_vpid` keeps.
free-keeps :
    (vpid j : ℕ) (map : Bitmap) → map j ≡ true → (vpid ≢ 0 → j ≢ vpid) → free_vpid vpid map j ≡ true
unfolding free_vpid
free-keeps vpid j map h away = elim (Bool-cases (vpid == 0)) [
  | inl none ↦ rw none h
  | inr some_id ↦ rw (some_id, ne→== j vpid (away (λ e. absurd (ground arith)))) h
]

destroy-Valid :
    (nr : ℕ) (s : Vcpus) (vcpu : ℕ)
    → Valid nr s
    → Valid nr (record {
      bitmap = free_vpid (s.vpid_of vcpu) s.bitmap;
      vpid_of = give_vpid vcpu 0 s.vpid_of;
    })
destroy-Valid nr s vcpu v = record {
  host = free-keeps (s.vpid_of vcpu) 0 s.bitmap v.host (λ some_id e. some_id (sym e));
  below = λ k. elim (Bool-cases (k == vcpu)) [
    | inl this ↦ rw this (λ some_id. absurd (some_id refl))
    | inr other ↦ rw other (v.below k)
  ];
  taken = λ k. elim (Bool-cases (k == vcpu)) [
    | inl this ↦ rw this (λ some_id. absurd (some_id refl))
    | inr other ↦ rw other (λ some_id.
        free-keeps (s.vpid_of vcpu) (s.vpid_of k) s.bitmap (v.taken k some_id)
          (λ h e. absurd (not_same k other (v.unique k vcpu some_id e))))
  ];
  unique = λ k l. elim (Bool-cases (k == vcpu)) [
    | inl this ↦ rw this (λ some_id e. absurd (some_id refl))
    | inr other ↦ elim (Bool-cases (l == vcpu)) [
      | inl that ↦ rw (other, that) (λ some_id e. absurd (some_id e))
      | inr another ↦ rw (other, another) (v.unique k l)
    ]
  ];
}
  where
    not_same : (k : ℕ) → (k == vcpu) ≡ false → k ≢ vcpu
    not_same k h e = ground arith

Step-Valid : (nr : ℕ) {s t : Vcpus} → Step nr s t → Valid nr s → Valid nr t
Step-Valid nr {s} (create vcpu no_id ok_id) v =
    let f = allocate_vpid-Fresh nr s.bitmap ok_id in
    rw f.taken (create-Valid nr s vcpu (allocate_vpid nr s.bitmap).vpid v f.below f.was_clear)
Step-Valid nr {s} (destroy vcpu) v = destroy-Valid nr s vcpu v

-- However virtual processors come and go from the start, the identifiers that they have are below
-- VMX_NR_VPIDS, are taken in the bitmap, and no two virtual processors have the same one; the
-- bit 0, of the host, stays set.
pub Reach-Valid : {nr : ℕ} {s t : Vcpus} → Starts s → Reach nr s t → Valid nr t
Reach-Valid {nr} {s} b here = Starts-Valid nr s b
Reach-Valid {nr} b (next r st) = Step-Valid nr st (Reach-Valid b r)
