-- ===== src/Vmx/Tests.antt =====
-- Runs of the identifiers, of a posted interrupt, and of queued interrupts.
use libdbos.Common.{ℕ, ◌≡◌, refl, true, false, ◌==◌, arith}
use libdbos.Vmx.Vpid
use libdbos.Vmx.Vpid.{Vcpus, create, allocate_vpid, find_zero_bit, give_vpid}
use libdbos.Vmx.Vpid.Unique.{Valid, Reach-Valid}
use libdbos.Vmx.Posted
use libdbos.Vmx.Posted.{outside, mark, notify}
use libdbos.Vmx.Posted.Outstanding.{Reach-outstanding}
use libdbos.Vmx.Queued.{Core, handle_queued_interrupts}
use libdbos.Vmx.Queued.Requests.{Delivered, handle_queued_interrupts-Delivered}

-- After `vmx_init`
abbrev no_vcpus : Vcpus
no_vcpus = record { bitmap = λ i. i == 0; vpid_of = λ k. 0 }

no_vcpus-Starts : Vpid.Starts no_vcpus
no_vcpus-Starts = record { host = refl; none_yet = λ k. refl }

first_vpid : (allocate_vpid 4 no_vcpus.bitmap).failed ≡ false
unfolding allocate_vpid find_zero_bit
first_vpid = refl

-- With one virtual processor.
abbrev one_vcpu : Vcpus
one_vcpu = record {
  bitmap = (allocate_vpid 4 no_vcpus.bitmap).bitmap;
  vpid_of = give_vpid 0 (allocate_vpid 4 no_vcpus.bitmap).vpid no_vcpus.vpid_of;
}

first_is_one : one_vcpu.vpid_of 0 ≡ 1
unfolding allocate_vpid find_zero_bit
first_is_one = refl

Reach-Valid_example : Valid 4 one_vcpu
Reach-Valid_example = Reach-Valid no_vcpus-Starts (Vpid.next Vpid.here (create 0 refl first_vpid))

abbrev quiet : Posted.State
quiet = record {
  vectors = λ v. false;
  outstanding = false;
  marked = λ v. 0;
  sent = false;
  handler = outside;
  taken = λ v. false;
}

quiet-Starts : Posted.Starts quiet
quiet-Starts = record { none_requested = λ v. refl; at_rest = refl }

-- Vector 5 has been requested, and the receiver notified.
abbrev notified : Posted.State
notified = record quiet {
  vectors = Posted.set_vector 5 true quiet.vectors;
  marked = Posted.set_count 5 0 (Posted.set_count 5 1 quiet.marked);
  outstanding = true;
  sent = true;
}

to_notified : Posted.Reach quiet notified
to_notified =
    Posted.next (Posted.next Posted.here (mark 5 (omega arith) refl)) (notify 5 0 refl refl)

Reach-outstanding_example : notified.outstanding ≡ true
Reach-outstanding_example = Reach-outstanding quiet-Starts to_notified 5 refl refl refl

-- Vector 0x42 is posted while 0x41 is being requested.
abbrev two_requests : Core
two_requests = record {
  outstanding = true;
  vectors = λ v. v == 0x42;
  virr = λ v. v == 0x41;
  guest_interrupt_status = 0x41;
  queued_interrupts = 0;
}

handle_queued_interrupts-Delivered_example :
    (rvi : ℕ) × Delivered two_requests (handle_queued_interrupts two_requests) rvi
    × ((handle_queued_interrupts two_requests).outstanding ≡ false)
handle_queued_interrupts-Delivered_example = handle_queued_interrupts-Delivered two_requests refl
