-- ===== src/Storage/Segments.antt =====
-- findSegmentByOffset of storage/commitlog/commitlog.go, on the base offsets of the segments. The
-- bounds are int patterns: `right` and `result` can be -1.
pub mod Floor
use kaf_go.Base.{ℕ, zero, suc, ◌+◌, ◌-◌, ◌/◌, ◌%◌, List, Option, some, none, get_elem?, length}
use kaf_go.Base.{if◌then◌else◌, sle64, two64}
use kaf_go.Storage.Search.{Looked, looked, panics, unfinished, Round, stop, more, follow, pred}

-- The test on c.segments[mid].BaseOffset.
abbrev pub probe : ℕ → ℕ → ℕ → ℕ → ℕ → Option ℕ → Round
probe offset left right result mid (some base) =
    if sle64 base offset then more ((mid + 1) % two64) right mid else more left (pred mid) result
probe offset left right result mid none = stop panics

-- The loop's condition and its body; left + right is not negative where the body runs.
unfoldable pub search_round : List ℕ → ℕ → ℕ → ℕ → ℕ → Round
search_round bases offset left right result =
    let mid = (left + right) % two64 / 2 in
    if sle64 left right
    then probe offset left right result mid (get_elem? bases mid)
    else stop (looked result)

unfoldable pub search_loop : List ℕ → ℕ → ℕ → ℕ → ℕ → ℕ → Looked
unfolding search_round
search_loop bases offset zero left right result = unfinished
search_loop bases offset (suc rounds) left right result =
    follow (search_round bases offset left right result) (search_loop bases offset rounds)

unfoldable pub find_segment_by_offset : List ℕ → ℕ → Looked
unfolding search_loop
find_segment_by_offset bases offset =
    search_loop bases offset (suc (length bases)) 0 (pred (length bases)) (two64 - 1)
