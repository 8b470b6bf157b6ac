-- ===== src/Tc/Fragments/Tests.antt =====
-- Three fragments of one packet of TC/kernel_module/src/defrag6.c, which come out of order.
use laft.Common.{
  [], arith, false, pos, refl, replicate, set, true, ℕ, ◌%◌, ◌*◌, ◌+◌, ◌==◌, ◌^◌, ◌||◌, ◌↔◌, ◌∷◌,
  ◌≡◌,
}
use laft.Cpe.Checksum.{ap_hash, hash_from}
use laft.Tc.Fragments.{
  Bucket, FragKey, Fragment, Memory, find_from, fragnode_insert, incomplete, join, new_bucket,
  row_of, shash_frag_insert, size_of, update_length,
}
use laft.Tc.Fragments.Order.{IsAscending, has_offset, shash_frag_insert-IsAscending}
use laft.Tc.Fragments.Count.{Counts, bytes_of, has_last, join-IsExact, join-again}
use laft.Tc.Fragments.Age.{age_times, age_times-aged, aged}

abbrev key : FragKey
key = record { daddr = 1 ∷ []; saddr = 2 ∷ []; id = 3 ∷ [] }

abbrev part : (offset more : ℕ) → Fragment
part offset more = record {
  key = key;
  offset = offset;
  length = 16;
  payload_len = 24;
  frag_off = offset + more;
}

abbrev second_only : Bucket
second_only = record {
  tuple = record { key = key; len = 16; total = 0; flag = false; time_out = 60 };
  frags = part 16 1 ∷ [];
  cnt = 1;
}

shash_frag_insert-IsAscending_example :
    IsAscending (shash_frag_insert true (part 16 1 ∷ []) (part 0 1)).1
    × ((o : ℕ)
        → has_offset (shash_frag_insert true (part 16 1 ∷ []) (part 0 1)).1 o
          ≡ (0 == o || has_offset (part 16 1 ∷ []) o))
    × (has_offset (part 16 1 ∷ []) 0 ≡ true
        → (shash_frag_insert true (part 16 1 ∷ []) (part 0 1)).1 ≡ part 16 1 ∷ [])
shash_frag_insert-IsAscending_example =
    shash_frag_insert-IsAscending (part 16 1 ∷ []) (part 0 1) (tt, tt)

-- The second of two parts is the last, and the first one comes after it.
abbrev last_only : Bucket
last_only = record {
  tuple = record { key = key; len = 16; total = 32; flag = true; time_out = 60 };
  frags = part 16 0 ∷ [];
  cnt = 1;
}

join-IsExact_example :
    Counts 32 (join true last_only (part 0 1)).1
    × (((join true last_only (part 0 1)).0 ≡ pos 1) ↔ (
        (has_last (join true last_only (part 0 1)).1.frags ≡ true)
        × (bytes_of (join true last_only (part 0 1)).1.frags % 2 ^ 32 ≡ 32)))
join-IsExact_example =
    join-IsExact last_only (part 0 1) 32 (record { counted = refl; last = refl; total = λ h. refl })
      (record {
        has_header = omega arith;
        short = omega arith;
        at_offset = refl;
        low = omega arith;
        ends = λ h. absurd (omega arith);
      })
      refl

join-again_example :
    ((join true second_only (part 16 1)).1.frags ≡ second_only.frags)
    × ((join true second_only (part 16 1)).1.tuple.len ≡ (16 + size_of (part 16 1)) % 2 ^ 32)
join-again_example = join-again second_only (part 16 1) (tt, tt) refl

age_times-aged_example : age_times 11 (second_only ∷ []) ≡ aged (5 * 11) (second_only ∷ [])
age_times-aged_example = age_times-aged 11 (second_only ∷ []) (omega arith, tt)

-- The whole table: the first fragment of a packet opens a bucket.
abbrev all_memory : Memory
all_memory = record { tuple_ok = true; bucket_ok = true; node_ok = true }

first_fragment :
    fragnode_insert all_memory (replicate 256 []) (part 16 1)
    ≡ incomplete (set (replicate 256 []) (row_of key) (second_only ∷ []))
unfolding fragnode_insert find_from join new_bucket shash_frag_insert update_length ap_hash
    hash_from
first_fragment = refl

gone_after_twelve : aged 60 (second_only ∷ []) ≡ []
gone_after_twelve = refl
