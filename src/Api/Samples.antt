-- ===== src/Api/Samples.antt =====
-- A record batch to try the handlers on.
use kaf_go.Base.{ℕ, ◌+◌, ◌<◌, arith, ◌∷◌, ◌++◌}
use kaf_go.Protocol.Reader.{big_endian}
use kaf_go.Storage.Index.{zeros}
use kaf_go.Storage.Region.Batches.{LogBatch}
use kaf_go.Api.Fetch.Batches.{IsRecordBatch}

-- A batch of 70 bytes; all three numbers are below 256.
abbrev pub batch_of : ℕ → ℕ → LogBatch
batch_of base delta = record {
  base_offset = base;
  last_offset_delta = delta;
  bytes =
      zeros 7
      ++ (base ∷ (zeros 3 ++ (58 ∷ (zeros 14 ++ (delta ∷ (zeros 33 ++ ((delta + 1) ∷ zeros 9)))))));
}

pub batch_of-IsRecordBatch : (base delta : ℕ) → delta < 255 → IsRecordBatch (batch_of base delta)
unfolding big_endian
batch_of-IsRecordBatch base delta h = record {
  log_batch = record {
    whole = omega arith;
    base = omega arith;
    len = omega arith;
    short = omega arith;
    delta = omega arith;
  };
  header = omega arith;
  counted = omega arith;
  small = omega arith;
}
