-- ===== src/Tc/Fragments.antt =====
-- TC/kernel_module/src/hash.c and TC/kernel_module/src/defrag6.c: the fragments of IPv6 packets,
-- kept in order of their offsets until a packet is complete or too old. A chain is the list of
-- what hangs on it; a pointer to a bucket is its row and its place in the chain.
pub mod Order
pub mod Count
pub mod Age
mod Tests
use laft.Common.{
  Bool, List, Option, [], bit_and, false, get_or, if◌then◌else◌, is_empty, leb, length, ltb, map,
  negsuc, none, not, pos, same_bytes, set, some, suc, true, ℕ, ℤ, ◌%◌, ◌&&◌, ◌++◌, ◌+◌, ◌-◌, ◌==◌,
  ◌^◌, ◌∷◌,
}
use laft.Cpe.Checksum.{ap_hash}

-- `FRAG_KEY`, whose fields are the bytes in memory.
pub record FragKey : Type 0 where
  pub daddr : List ℕ
  pub saddr : List ℕ
  pub id : List ℕ

-- `FRAG_CB`, with the fields of the packet's headers that the code reads, in host order.
pub record Fragment : Type 0 where
  pub key : FragKey
  pub offset : ℕ
  pub length : ℕ
  pub payload_len : ℕ
  pub frag_off : ℕ

-- `FRAG_TUPLE`
pub record FragTuple : Type 0 where
  pub key : FragKey
  pub len : ℕ
  pub total : ℕ
  pub flag : Bool
  pub time_out : ℕ

-- A bucket node, with the list of its fragments.
pub record Bucket : Type 0 where
  pub tuple : FragTuple
  pub frags : List Fragment
  pub cnt : ℕ

abbrev pub max_shash_size : ℕ
max_shash_size = 256

abbrev pub frag_timeout : ℕ
frag_timeout = 60

abbrev pub max_frag_cnt : ℕ
max_frag_cnt = 1144

abbrev pub max_frag_per_time : ℕ
max_frag_per_time = 5

abbrev pub frag_compare : Fragment → Fragment → ℤ
frag_compare a b =
    if ltb a.offset b.offset then pos 1 else if ltb b.offset a.offset then negsuc 0 else pos 0

abbrev pub is_zero : ℤ → Bool
is_zero (pos n) = n == 0
is_zero (negsuc n) = false

abbrev pub below_zero : ℤ → Bool
below_zero (pos n) = false
below_zero (negsuc n) = true

-- The loop of `ShashFragInsert`, from a node on; it drops a fragment whose offset is there.
unfoldable pub insert_from : List Fragment → Fragment → List Fragment
insert_from [] d = []
insert_from (p ∷ []) d =
    if is_zero (frag_compare p d)
    then p ∷ []
    else if below_zero (frag_compare p d)
    then d ∷ p ∷ []
    else p ∷ d ∷ []
insert_from (p ∷ q ∷ rest) d =
    let further = insert_from (q ∷ rest) d in
    if is_zero (frag_compare p d)
    then p ∷ q ∷ rest
    else if below_zero (frag_compare p d)
    then d ∷ p ∷ q ∷ rest
    else if below_zero (frag_compare q d)
    then p ∷ d ∷ q ∷ rest
    else p ∷ further

-- `node_ok` says whether there is memory for the node.
unfoldable pub shash_frag_insert : (node_ok : Bool) → List Fragment → Fragment → ℤ × List Fragment
shash_frag_insert false frags d = (negsuc 0, frags)
shash_frag_insert true frags d =
    if is_empty frags then (pos 1, d ∷ []) else (pos 1, insert_from frags d)

-- `updatelength`: 1 if all bytes of the packet have come. Subtraction wraps at 32 bits.
abbrev pub size_of : Fragment → ℕ
size_of d = (d.payload_len + 2 ^ 32 - 8) % 2 ^ 32

unfoldable pub update_length : FragTuple → Fragment → ℤ × FragTuple
update_length t d =
    let len = (t.len + size_of d) % 2 ^ 32 in
    let last = d.frag_off % 2 == 0 in
    let total = if last then (bit_and d.frag_off 0xfffe + size_of d) % 2 ^ 32 else t.total in
    let flag = if last then true else t.flag in
    (
      if flag && len == total then pos 1 else negsuc 0,
      record t { len = len; total = total; flag = flag },
    )

unfoldable pub key_compare : FragTuple → FragKey → Bool
key_compare t key =
    same_bytes t.key.id key.id
    && same_bytes t.key.daddr key.daddr
    && same_bytes t.key.saddr key.saddr

-- `ShashBucketFind` in one chain: the place of the first bucket with the key.
unfoldable pub find_from : List Bucket → FragKey → Option ℕ
find_from [] key = none
find_from (b ∷ bs) key =
    let rest : Option ℕ = elim (find_from bs key) [ none ↦ none | some k ↦ some (suc k) ] in
    if key_compare b.tuple key then some 0 else rest

-- The row of a key.
abbrev pub row_of : FragKey → ℕ
row_of key = ap_hash (key.daddr ++ key.saddr ++ key.id) % max_shash_size

abbrev pub blank_bucket : Bucket
blank_bucket = record {
  tuple = record {
    key = record { daddr = []; saddr = []; id = [] };
    len = 0;
    total = 0;
    flag = false;
    time_out = 0;
  };
  frags = [];
  cnt = 0;
}

-- `createfragtuple` with the bucket that `ShashInsert` puts in front of the chain.
unfoldable pub new_bucket : FragKey → Bucket
new_bucket key = record {
  tuple = record { key = key; len = 0; total = 0; flag = false; time_out = frag_timeout };
  frags = [];
  cnt = 1;
}

-- The end of `fragnodeinsert`: the fragment joins its bucket.
unfoldable pub join : (node_ok : Bool) → Bucket → Fragment → ℤ × Bucket
join node_ok b d =
    let frags = (shash_frag_insert node_ok b.frags d).1 in
    let updated = update_length b.tuple d in
    (updated.0, record b { tuple = updated.1; frags = frags })

-- What comes of `fragnodeinsert`: a NULL that is followed, NULL returned, or the bucket of a packet
-- that is complete, as its row and its place.
pub data Inserted : Type 0 where
  null_followed : Inserted
  incomplete : List (List Bucket) → Inserted
  complete : (row place : ℕ) → List (List Bucket) → Inserted

abbrev pub inserted_at : ℕ → ℕ → List (List Bucket) → ℤ → Inserted
inserted_at row place table (pos n) = if n == 0 then incomplete table else complete row place table
inserted_at row place table (negsuc n) = incomplete table

-- Whether there is memory for the tuple, the bucket and the node.
pub record Memory : Type 0 where
  pub tuple_ok : Bool
  pub bucket_ok : Bool
  pub node_ok : Bool

unfoldable pub fragnode_insert : Memory → List (List Bucket) → Fragment → Inserted
fragnode_insert mem table d =
    let row = row_of d.key in
    let chain = get_or table row [] in
    elim (find_from chain d.key) [
      | none ↦
          let joined = join mem.node_ok (new_bucket d.key) d in
          if not mem.tuple_ok
          then incomplete table
          else if not mem.bucket_ok
          then null_followed
          else inserted_at row 0 (set table row (joined.1 ∷ chain)) joined.0
      | some place ↦
          let b = get_or chain place blank_bucket in
          let counted = record b { cnt = (b.cnt + 1) % 2 ^ 32 } in
          let fresh = record counted { tuple = record b.tuple { time_out = frag_timeout } } in
          let joined = join mem.node_ok fresh d in
          if ltb max_frag_cnt counted.cnt
          then incomplete (set table row (set chain place counted))
          else inserted_at row place (set table row (set chain place joined.1)) joined.0
    ]

-- `fragtimeouthandle` on one chain; `time_out` is positive between the calls.
unfoldable pub age : List Bucket → List Bucket
age [] = []
age (b ∷ bs) =
    if leb b.tuple.time_out max_frag_per_time
    then age bs
    else record b { tuple = record b.tuple { time_out = b.tuple.time_out - max_frag_per_time } }
      ∷ age bs

unfoldable pub fragtimeout_handle : List (List Bucket) → List (List Bucket)
fragtimeout_handle table = map age table
