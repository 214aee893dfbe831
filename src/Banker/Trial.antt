-- ===== src/Banker/Trial.antt =====
-- The trial allocation of `banker_request`, its rollback, and what they keep.
use os_curriculum_design.Prelude.{
  ℕ, ◌+◌, ◌≤◌, ◌<◌, ◌^◌, ◌≡◌, ◌∙◌, arith, true, some, length, get_elem?, set, length-set, All-set,
  All-get, get_or_of_get_elem?, get_elem?-lt, add32, sub32, set-set, set_self, get_or-set_self,
}
use os_curriculum_design.Banker.{
  Resources, BankerProcess, Banker, zip_resources, find_slot_by_pid, process_at, blank_process,
  granted, returned, allocate, give_back,
}
use os_curriculum_design.Banker.Sequence.{Covers}
use os_curriculum_design.Banker.Totals.{Kind, amount, amount-zip, Covers-iff}
use os_curriculum_design.Banker.Table.{
  IsEntry, IsValid, total, Resources-ext, share-le-held, held-set, find_slot_by_pid-some,
}

-- A slot of a valid table that is in use.
pub record AtSlot (b : Banker) (slot : ℕ) (p : BankerProcess) : Type 0 where
  pub at : get_elem? b.processes slot ≡ some p
  pub in_use : p.used ≡ true
  pub entry : IsEntry p
  pub holds : (k : Kind) → amount k b.available + amount k p.allocation < 2 ^ 32

pub find-AtSlot :
    {b : Banker} (pid slot : ℕ)
    → IsValid b
    → find_slot_by_pid b.processes pid ≡ some slot
    → (p : BankerProcess) × AtSlot b slot p
find-AtSlot {b} pid slot v e =
    let (p, at, used, _) = find_slot_by_pid-some b.processes pid slot e in
    (
      p,
      record {
        at = at;
        in_use = used;
        entry = All-get IsEntry b.processes slot p v.entries at;
        holds = λ k. ground (arith, v.fits k, share-le-held k b.processes slot p at, used);
      },
    )

module _ (b : Banker) (slot : ℕ) (p : BankerProcess) (s : AtSlot b slot p) where
  pub process_at-eq : process_at b slot ≡ p
  process_at-eq = get_or_of_get_elem? b.processes slot p blank_process s.at

  in_range : slot < length b.processes
  in_range = get_elem?-lt b.processes slot p s.at

  module _ (r : Resources) (in_need : Covers p.need r) (in_available : Covers b.available r) where
    amount_bounds :
        (k : Kind)
        → (amount k r ≤ amount k p.need)
          × (amount k r ≤ amount k b.available)
          × (amount k p.need + amount k p.allocation < 2 ^ 32)
    amount_bounds k = (
      (Covers-iff p.need r).0 in_need k,
      (Covers-iff b.available r).0 in_available k,
      omega (arith, s.entry k),
    )

    returned-granted : returned (granted p r) r ≡ p
    returned-granted = λ i. record p {
      allocation =
          Resources-ext (zip_resources sub32 (zip_resources add32 p.allocation r) r) p.allocation
            same_allocation i;
      need =
          Resources-ext (zip_resources add32 (zip_resources sub32 p.need r) r) p.need same_need i;
    }
      where
        same_allocation :
            (k : Kind)
            → amount k (zip_resources sub32 (zip_resources add32 p.allocation r) r)
              ≡ amount k p.allocation
        same_allocation k = rw (amount-zip k, amount-zip k) (omega (arith, amount_bounds k))

        same_need :
            (k : Kind)
            → amount k (zip_resources add32 (zip_resources sub32 p.need r) r) ≡ amount k p.need
        same_need k = rw (amount-zip k, amount-zip k) (omega (arith, amount_bounds k))

    available-restored : zip_resources add32 (zip_resources sub32 b.available r) r ≡ b.available
    available-restored =
        Resources-ext _ _
          λ k. rw (amount-zip k, amount-zip k) (omega (arith, amount_bounds k, s.holds k))

    -- Undoing the trial allocation restores the whole state.
    pub give_back-allocate : give_back (allocate b slot r) slot r ≡ b
    unfolding give_back allocate
    give_back-allocate = λ i. record b { available = available-restored i; processes = restored i }
      where
        restored :
            set
              (set b.processes slot (granted (process_at b slot) r))
              slot
              (returned (process_at (allocate b slot r) slot) r)
            ≡ b.processes
        restored =
            rw
              (
                set-set,
                process_at-eq,
                get_or-set_self b.processes slot (granted p r) blank_process in_range,
                returned-granted,
              )
              (set_self b.processes slot p s.at)

    pub allocate-total : (k : Kind) → total k (allocate b slot r) ≡ total k b
    unfolding allocate
    allocate-total k =
        rw (process_at-eq, amount-zip k)
          (ground (
            arith,
            held-set k b.processes slot p (granted p r) s.at,
            s.in_use,
            amount-zip k add32 p.allocation r,
            amount_bounds k,
            s.holds k,
          ))

    granted-IsEntry : IsEntry (granted p r)
    granted-IsEntry k = simp amount-zip (omega (arith, amount_bounds k, s.entry k))

    pub allocate-IsValid : IsValid b → IsValid (allocate b slot r)
    unfolding allocate
    allocate-IsValid v = record {
      size = length-set b.processes slot _ ∙ v.size;
      entries = All-set IsEntry b.processes slot _ v.entries (rw process_at-eq granted-IsEntry);
      fits = λ k. omega (arith, allocate-total k, v.fits k);
    }

  module _ (r : Resources) (in_allocation : Covers p.allocation r) where
    pub give_back-total : (k : Kind) → total k (give_back b slot r) ≡ total k b
    unfolding give_back
    give_back-total k =
        rw (process_at-eq, amount-zip k)
          (ground (
            arith,
            held-set k b.processes slot p (returned p r) s.at,
            s.in_use,
            amount-zip k sub32 p.allocation r,
            (Covers-iff p.allocation r).0 in_allocation k,
            s.entry k,
            s.holds k,
          ))

    returned-IsEntry : IsEntry (returned p r)
    returned-IsEntry k =
        simp amount-zip (omega (arith, (Covers-iff p.allocation r).0 in_allocation k, s.entry k))

    pub give_back-IsValid : IsValid b → IsValid (give_back b slot r)
    unfolding give_back
    give_back-IsValid v = record {
      size = length-set b.processes slot _ ∙ v.size;
      entries = All-set IsEntry b.processes slot _ v.entries (rw process_at-eq returned-IsEntry);
      fits = λ k. omega (arith, give_back-total k, v.fits k);
    }
