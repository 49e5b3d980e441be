-- ===== src/Server/Replica/Again.antt =====
-- A follower that is served a batch that it has.
use kaf_go.Base.{
  ap, ◌∙◌, ℕ, ◌+◌, ◌^◌, ◌≤◌, ◌<◌, ◌≡◌, refl, arith, true, false, List, [], ◌∷◌, ◌++◌, some,
}
use kaf_go.Base.{◌&&◌, length, ltb, sle64, length-append}
use kaf_go.Storage.Index.{OffsetIndex, lookup}
use kaf_go.Storage.Search.{looked}
use kaf_go.Storage.Region.{region, find_raw_region}
use kaf_go.Storage.Region.Batches.{LogBatch, log_contents}
use kaf_go.Storage.Region.Search.{limited}
use kaf_go.Storage.Region.Served.{EndsBelow}
use kaf_go.Storage.Region.Previous.{find_raw_region-previous}
use kaf_go.Storage.Log.Sound.{all_well, fresh}
use kaf_go.Api.Fetch.Batches.{All-log_batch}
use kaf_go.Server.Replica.{ReplicaFetcher, PartitionResponse, handle_response}
use kaf_go.Server.Replica.Count.{records_in}
use kaf_go.Server.Replica.Follow.{Ready, Brings, Took, handle_response-Took}

-- Batches that fit are all taken.
limited-all :
    (max_bytes accumulated : ℕ) (bs : List LogBatch)
    → accumulated + length (log_contents bs) ≤ max_bytes
    → limited max_bytes accumulated bs ≡ bs
limited-all max_bytes accumulated [] h = refl
limited-all max_bytes accumulated (b ∷ bs) h =
    let size = length-append b.bytes (log_contents bs) in
    let under : ltb max_bytes (accumulated + length b.bytes) ≡ false = ground (arith, size) in
    let first : (ltb 0 max_bytes
          && (ltb 0 accumulated && ltb max_bytes (accumulated + length b.bytes)))
        ≡ false =
      ground (arith, under) in
    let second : (ltb 0 max_bytes && ltb max_bytes (accumulated + length b.bytes)) ≡ false =
      ground (arith, under) in
    rw (first, second)
      (ap (λ t. b ∷ t)
        (limited-all max_bytes (accumulated + length b.bytes) bs (omega (arith, size))))

-- A follower has all of its leader's log up to the fetch offset, and the next batch b starts there. Where the offset
-- index of the leader gives the place of the batch p before b, FindRawRegion serves p again, with b and what follows;
-- when the follower is brought these it appends them all, p again with a new base offset, and its fetch offset
-- goes up by the records of p besides those of b and of the batches after it.
pub handle_response-again :
    (now : ℕ) (front : List ℕ) (p b : LogBatch) (bs : List LogBatch) (offset_index : OffsetIndex)
    (max_bytes : ℕ) (part : PartitionResponse) (rf : ReplicaFetcher)
    → lookup rf.fetch_offset offset_index ≡ looked (length front)
    → length (front ++ log_contents (p ∷ b ∷ bs)) < 2 ^ 62
    → length (log_contents (p ∷ b ∷ bs)) ≤ max_bytes
    → max_bytes < 2 ^ 62
    → sle64 rf.fetch_offset p.base_offset ≡ false
    → EndsBelow rf.fetch_offset p
    → sle64 rf.fetch_offset b.base_offset ≡ true
    → Ready rf
    → rf.commit_log.next_offset ≡ rf.fetch_offset
    → Brings part rf (p ∷ b ∷ bs)
    → (find_raw_region (front ++ log_contents (p ∷ b ∷ bs)) offset_index rf.fetch_offset max_bytes
        ≡ region (length front) (length (log_contents (p ∷ b ∷ bs))))
      × (t : Took part rf (p ∷ b ∷ bs) (handle_response (all_well now) (some fresh) part rf))
      × (t.rf'.fetch_offset ≡ rf.fetch_offset + records_in (b ∷ bs) + (p.last_offset_delta + 1))
handle_response-again now front p b bs offset_index max_bytes part rf found small room bound starts
      low next ready level h =
    let t = handle_response-Took now part rf p (b ∷ bs) ready h in
    let all = limited-all max_bytes 0 (p ∷ b ∷ bs) (omega arith) in
    (
      find_raw_region-previous front p b bs offset_index rf.fetch_offset max_bytes found
            (All-log_batch (p ∷ b ∷ bs) h.valid) small bound starts low next
          ∙ ap (λ taken. region (length front) (length (log_contents taken))) all,
      t,
      omega (arith, t.fetch, level),
    )
