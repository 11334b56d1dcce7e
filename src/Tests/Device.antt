-- ===== src/Tests/Device.antt =====
-- The operations of the TLB on a device with two entries and a size that is not a multiple of 8.
use os_assignment_hk.Common.{◌≡◌, refl, some, [], ◌∷◌, ok, ◌>>=◌}
use os_assignment_hk.Tlb.{set_tlb_entry, tlb_cache_read, tlb_cache_write, tlb_cache_invalidate}
use os_assignment_hk.Tlb.Device.{TlbMemphy, cache_read, cache_write, cache_invalidate}
use os_assignment_hk.Tlb.Device.Loops.{loops_agree}

abbrev small : TlbMemphy
small = record { storage = set_tlb_entry 1 5 1 9 ∷ 0 ∷ []; maxsz = 20 }

loops_agree_example :
    (cache_read (some small) 1 5 ≡ ok (tlb_cache_read small.storage 1 5))
    × (cache_write (some small) 1 5 3 7
        ≡ (tlb_cache_write small.storage 1 5 3 7 >>= λ es. ok (record small { storage = es })))
    × (cache_invalidate (some small) 1 (some 5)
        ≡ ok (
          (tlb_cache_invalidate small.storage 1 (some 5)).0,
          record small { storage = (tlb_cache_invalidate small.storage 1 (some 5)).1 },
        ))
loops_agree_example = loops_agree small 1 5 3 7 (some 5) refl
