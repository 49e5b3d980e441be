-- ===== src/Server/Replica/Follow.antt =====
-- A follower that appends what its leader serves.
use kaf_go.Base.{
  ap, ◌∙◌, sym, ℕ, ◌+◌, ◌%◌, ◌^◌, ◌≤◌, ◌<◌, ◌≡◌, refl, arith, true, false, List, ◌∷◌, ◌++◌, none,
  some, append_assoc,
}
use kaf_go.Base.{◌==◌, length, slt32, All, two32, two64, extend32, length-append}
use kaf_go.Protocol.Writer.{fixed_bytes}
use kaf_go.Storage.Region.Batches.{LogBatch, log_contents}
use kaf_go.Storage.Log.{CommitLog, segments, patched, is_full, append_raw, active_appended}
use kaf_go.Storage.Log.Sound.{Indexed, all_well, fresh, segment_append_raw-Indexed}
use kaf_go.Storage.Log.Appends.{bytes_of, bytes_of-last, append_raw-room}
use kaf_go.Api.Fetch.Batches.{IsRecordBatch}
use kaf_go.Server.Replica.{
  ReplicaFetcher, PartitionResponse, Fetched, fetched, after_append, append_counted,
  handle_response, count_records_in_record_batches,
}
use kaf_go.Server.Replica.Count.{records_in, count_records-batches}

-- The log of the follower is open and its active segment has room for a batch and for its index entries.
pub record Ready (rf : ReplicaFetcher) : Type 0 where
  pub is_open : rf.commit_log.is_closed ≡ false
  pub room : is_full rf.commit_log.active ≡ false
  pub indexed : Indexed rf.commit_log.active

-- A response that holds these batches, which the follower's offsets can count.
pub record Brings (part : PartitionResponse) (rf : ReplicaFetcher) (bs : List LogBatch)
    : Type 0 where
  pub no_error : part.error_code ≡ 0
  pub batches : part.records ≡ log_contents bs
  pub valid : All IsRecordBatch bs
  pub few : records_in bs < 2 ^ 31
  pub below : rf.commit_log.next_offset + records_in bs < 2 ^ 63

-- The fetcher after it has appended the batches.
pub record Took (part : PartitionResponse) (rf : ReplicaFetcher) (bs : List LogBatch) (o : Fetched)
    : Type 0 where
  pub rf' : ReplicaFetcher
  pub done : o ≡ fetched rf'
  pub next : rf'.commit_log.next_offset ≡ rf.commit_log.next_offset + records_in bs
  pub fetch : rf'.fetch_offset ≡ rf.commit_log.next_offset + records_in bs
  pub hwm : rf'.high_watermark ≡ part.high_watermark
  pub bytes :
      bytes_of (segments rf'.commit_log)
      ≡ bytes_of (segments rf.commit_log) ++ patched rf.commit_log.next_offset part.records

some_bytes :
    (b : LogBatch) (bs : List LogBatch) → IsRecordBatch b → 61 ≤ length (log_contents (b ∷ bs))
some_bytes b bs h = omega (arith, h.header, length-append b.bytes (log_contents bs))

handle_response-counted :
    (now : ℕ) (part : PartitionResponse) (rf : ReplicaFetcher) (b : LogBatch) (bs : List LogBatch)
    → Brings part rf (b ∷ bs)
    → handle_response (all_well now) (some fresh) part rf
      ≡ after_append part
          (records_in (b ∷ bs))
          rf
          (append_raw (all_well now) (some fresh) part.records (records_in (b ∷ bs)) rf.commit_log)
unfolding handle_response
handle_response-counted now part rf b bs h =
    let few : records_in (b ∷ bs) < two32 = omega (arith, h.few) in
    let none_wrong : (part.error_code == 0) ≡ true = ground (arith, h.no_error) in
    let size = ap length h.batches in
    let not_empty : (length part.records == 0) ≡ false =
      ground (arith, size, some_bytes b bs h.valid.0) in
    let positive : slt32 0 (records_in (b ∷ bs)) ≡ true = ground (arith, h.few) in
    rw (none_wrong, not_empty)
      (ap (append_counted (all_well now) (some fresh) part rf) (
          ap count_records_in_record_batches h.batches ∙ count_records-batches (b ∷ bs) h.valid few)
        ∙ rw positive refl)

-- The batches of a response are appended, behind those of the log; the first is given the log's next offset.
pub handle_response-Took :
    (now : ℕ) (part : PartitionResponse) (rf : ReplicaFetcher) (b : LogBatch) (bs : List LogBatch)
    → Ready rf
    → Brings part rf (b ∷ bs)
    → Took part rf (b ∷ bs) (handle_response (all_well now) (some fresh) part rf)
handle_response-Took now part rf b bs ready h =
    let c = rf.commit_log in
    let n = records_in (b ∷ bs) in
    let long : 8 ≤ length part.records =
      omega (arith, ap length h.batches, some_bytes b bs h.valid.0) in
    let (s, done, file, base, indexed) =
      segment_append_raw-Indexed now c.next_offset part.records c.active ready.indexed long in
    let count : extend32 n ≡ n = ground (arith, h.few) in
    let sum : (c.next_offset + extend32 n) % two64 ≡ c.next_offset + n =
      omega (arith, count, h.below) in
    let c' : CommitLog = record c {
      active = s;
      next_offset = (c.next_offset + extend32 n) % two64;
    } in
    record {
      rf' = record {
        fetch_offset = (c.next_offset + extend32 n) % two64;
        high_watermark = part.high_watermark;
        commit_log = c';
      };
      done =
          handle_response-counted now part rf b bs h
          ∙ ap (after_append part n rf) (
              append_raw-room (all_well now) part.records n c ready.is_open ready.room
              ∙ ap (active_appended none n c) done);
      next = sum;
      fetch = sum;
      hwm = refl;
      bytes =
          bytes_of-last c.sealed s
          ∙ ap (λ t. bytes_of c.sealed ++ t) file
          ∙ sym (
              append_assoc (bytes_of c.sealed) c.active.log_file
                (patched c.next_offset part.records))
          ∙ ap (λ t. t ++ patched c.next_offset part.records)
              (sym (bytes_of-last c.sealed c.active));
    }

patched-own :
    (base : ℕ) (tail : List ℕ)
    → patched base (fixed_bytes 8 base ++ tail) ≡ fixed_bytes 8 base ++ tail
unfolding patched fixed_bytes
patched-own base tail = refl

-- A follower whose log is the beginning of its leader's, and which is brought the whole batches that come next, the
-- first with the follower's next offset in its header: its log is the beginning of the leader's again, with these
-- batches, its next offset is higher by their records, and its fetch offset is the new next offset. Its active segment
-- is not full and has whole indexes, the file system does what it is asked for, and the offsets stay int64.
pub handle_response-follows :
    (now : ℕ) (part : PartitionResponse) (rf : ReplicaFetcher) (b : LogBatch) (bs : List LogBatch)
    (tail leader rest : List ℕ)
    → Ready rf
    → Brings part rf (b ∷ bs)
    → part.records ≡ fixed_bytes 8 rf.commit_log.next_offset ++ tail
    → leader ≡ bytes_of (segments rf.commit_log) ++ (part.records ++ rest)
    → (t : Took part rf (b ∷ bs) (handle_response (all_well now) (some fresh) part rf)) × (leader
        ≡ bytes_of (segments t.rf'.commit_log) ++ rest)
handle_response-follows now part rf b bs tail leader rest ready h starts behind =
    let t = handle_response-Took now part rf b bs ready h in
    let base = rf.commit_log.next_offset in
    let same : patched base part.records ≡ part.records =
      ap (patched base) starts ∙ patched-own base tail ∙ sym starts in
    (
      t,
      behind
          ∙ sym (append_assoc (bytes_of (segments rf.commit_log)) part.records rest)
          ∙ ap (λ x. (bytes_of (segments rf.commit_log) ++ x) ++ rest) (sym same)
          ∙ ap (λ x. x ++ rest) (sym t.bytes),
    )
