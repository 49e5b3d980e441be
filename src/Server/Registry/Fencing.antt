-- ===== src/Server/Registry/Fencing.antt =====
-- Brokers that come back, and what is left to their earlier epochs.
use kaf_go.Base.{
  ℕ, ◌+◌, ◌^◌, ◌≤◌, ◌<◌, ◌≡◌, ◌∙◌, refl, ap, sym, arith, inl, inr, Bool-cases, true, false, List,
  [], ◌∷◌, Option, none, some, length,
}
use kaf_go.Base.{◌==◌, if◌then◌else◌}
use kaf_go.Base.Assoc.{lookup, lookup-insert}
use kaf_go.Server.Registry.{
  BrokerInfo, BrokerRegistry, new_epoch, register_broker, stale_epoch, validate_info,
  validate_and_update,
}

-- A call that changes the registry.
pub data Call : Type 0 where
  register : (now id : ℕ) (host : List ℕ) (port : ℕ) → Call
  heartbeat : (now id epoch metadata_offset : ℕ) → Call

abbrev pub run : Call → BrokerRegistry → BrokerRegistry
run (register now id host port) r = (register_broker now id host port r).1
run (heartbeat now id epoch metadata_offset) r =
    (validate_and_update now id epoch metadata_offset r).1

abbrev pub run_all : List Call → BrokerRegistry → BrokerRegistry
run_all [] r = r
run_all (c ∷ calls) r = run_all calls (run c r)

-- The epoch of a registered broker, and 0 of another.
abbrev pub epoch_in : Option BrokerInfo → ℕ
epoch_in none = 0
epoch_in (some info) = info.epoch

new_epoch_lem : (o : Option BrokerInfo) → epoch_in o < 2 ^ 63 → new_epoch o ≡ epoch_in o + 1
new_epoch_lem none h = omega arith
new_epoch_lem (some info) h = omega arith

-- Whatever call comes, the epoch of a broker stays or is one higher.
run-epoch :
    (id : ℕ) (c : Call) (r : BrokerRegistry)
    → epoch_in (lookup id r) < 2 ^ 63
    → (epoch_in (lookup id r) ≤ epoch_in (lookup id (run c r)))
      × (epoch_in (lookup id (run c r)) ≤ epoch_in (lookup id r) + 1)
unfolding register_broker validate_and_update
run-epoch id (register now j host port) r h = elim (Bool-cases (j == id)) [
  | inl same ↦
      let e : j ≡ id = ground arith in
      rw
        (
          lookup-insert j id
              (record {
                broker_id = j;
                host = host;
                port = port;
                epoch = new_epoch (lookup j r);
                metadata_offset = 0;
                last_seen = now;
              })
              r,
          same,
        )
        (let n : new_epoch (lookup j r) ≡ epoch_in (lookup id r) + 1 =
            ap (λ k. new_epoch (lookup k r)) e ∙ new_epoch_lem (lookup id r) h in
          (omega (arith, n), omega (arith, n)))
  | inr other ↦
      rw
        (
          lookup-insert j id
              (record {
                broker_id = j;
                host = host;
                port = port;
                epoch = new_epoch (lookup j r);
                metadata_offset = 0;
                last_seen = now;
              })
              r,
          other,
        )
        (omega arith, omega arith)
]
run-epoch id (heartbeat now j epoch metadata_offset) r h = found (lookup j r) refl
  where
    found :
        (o : Option BrokerInfo)
        → lookup j r ≡ o
        → (epoch_in (lookup id r)
            ≤ epoch_in (lookup id (validate_info now j epoch metadata_offset r o).1))
          × (epoch_in (lookup id (validate_info now j epoch metadata_offset r o).1)
              ≤ epoch_in (lookup id r) + 1)
    found none e = (omega arith, omega arith)
    found (some info) e = elim (Bool-cases (info.epoch == epoch)) [
      | inr stale ↦ rw stale (omega arith, omega arith)
      | inl current ↦
          let seen : BrokerInfo = record info {
            metadata_offset = metadata_offset;
            last_seen = now;
          } in
          rw (current, lookup-insert j id seen r) (kept seen refl)
    ]
      where
        kept :
            (seen : BrokerInfo)
            → seen.epoch ≡ info.epoch
            → (epoch_in (lookup id r) ≤ epoch_in (if j == id then some seen else lookup id r))
              × (epoch_in (if j == id then some seen else lookup id r) ≤ epoch_in (lookup id r) + 1)
        kept seen same_epoch = elim (Bool-cases (j == id)) [
          | inr other ↦ rw other (omega arith, omega arith)
          | inl same ↦
              let k : j ≡ id = ground arith in
              let at : epoch_in (lookup id r) ≡ info.epoch =
                ap (λ n. epoch_in (lookup n r)) (sym k) ∙ ap epoch_in e in
              rw same (omega (arith, at, same_epoch), omega (arith, at, same_epoch))
        ]

run_all-epoch :
    (id : ℕ) (calls : List Call) (r : BrokerRegistry)
    → epoch_in (lookup id r) + length calls < 2 ^ 63
    → (epoch_in (lookup id r) ≤ epoch_in (lookup id (run_all calls r)))
      × (epoch_in (lookup id (run_all calls r)) ≤ epoch_in (lookup id r) + length calls)
run_all-epoch id [] r h = (omega arith, omega arith)
run_all-epoch id (c ∷ calls) r h =
    let (low, high) = run-epoch id c r (omega arith) in
    let (low', high') = run_all-epoch id calls (run c r) (omega (arith, high)) in
    (omega (arith, low, low'), omega (arith, high, high'))

register-epoch :
    (now id : ℕ) (host : List ℕ) (port : ℕ) (r : BrokerRegistry)
    → epoch_in (lookup id r) < 2 ^ 63
    → ((register_broker now id host port r).0 ≡ epoch_in (lookup id r) + 1)
      × (epoch_in (lookup id (register_broker now id host port r).1) ≡ epoch_in (lookup id r) + 1)
unfolding register_broker
register-epoch now id host port r h =
    let itself : (id == id) ≡ true = ground arith in
    let info : BrokerInfo = record {
      broker_id = id;
      host = host;
      port = port;
      epoch = new_epoch (lookup id r);
      metadata_offset = 0;
      last_seen = now;
    } in
    (
      new_epoch_lem (lookup id r) h,
      rw (lookup-insert id id info r, itself) (new_epoch_lem (lookup id r) h),
    )

validate_stale :
    (now id epoch metadata_offset : ℕ) (r : BrokerRegistry) (o : Option BrokerInfo)
    → epoch < epoch_in o
    → (newer : ℕ) × (validate_info now id epoch metadata_offset r o ≡ (stale_epoch newer epoch, r))
      × (epoch < newer)
validate_stale now id epoch metadata_offset r none h = absurd (omega arith)
validate_stale now id epoch metadata_offset r (some info) h =
    let other : (info.epoch == epoch) ≡ false = ground arith in (info.epoch, rw other refl, h)

-- A broker that registers, and later registers again, has lost its first epoch for good: whatever
-- calls come between and after, of this broker and of others, a heartbeat with the first epoch is
-- refused as stale against a newer one and changes nothing. Fewer calls than the epochs of an int64
-- are assumed.
pub register_broker_fences :
    (r : BrokerRegistry) (id : ℕ) (now : ℕ) (host : List ℕ) (port : ℕ) (between : List Call)
    (now' : ℕ) (host' : List ℕ) (port' : ℕ) (after : List Call) (now'' metadata_offset : ℕ)
    → epoch_in (lookup id r) + length between + length after + 2 < 2 ^ 63
    → (newer : ℕ) × (validate_and_update now'' id
          (register_broker now id host port r).0
          metadata_offset
          (run_all after
            (register_broker now' id host' port'
              (run_all between (register_broker now id host port r).1)).1)
        ≡ (
          stale_epoch newer (register_broker now id host port r).0,
          run_all after
              (register_broker now' id host' port'
                (run_all between (register_broker now id host port r).1)).1,
        ))
      × ((register_broker now id host port r).0 < newer)
unfolding validate_and_update
register_broker_fences r id now host port between now' host' port' after now'' metadata_offset few =
    let r1 = (register_broker now id host port r).1 in
    let r2 = run_all between r1 in
    let r3 = (register_broker now' id host' port' r2).1 in
    let r4 = run_all after r3 in
    let (given, first) = register-epoch now id host port r (omega arith) in
    let (low, high) = run_all-epoch id between r1 (omega (arith, first)) in
    let (_, second) = register-epoch now' id host' port' r2 (omega (arith, first, high)) in
    let (low', high') = run_all-epoch id after r3 (omega (arith, first, high, second)) in
    validate_stale now'' id (register_broker now id host port r).0 metadata_offset r4 (lookup id r4)
      (omega (arith, given, first, low, second, low'))
