-- ===== src/Chain/Verify/Passed.antt =====
-- One round of the loop of VerifyChain of core/blockchain.go, and what it says of a block that passes.
use xenium.Prelude.{
  ℕ, ◌+◌, ◌-◌, ◌/◌, ◌≤◌, ◌<◌, ◌≡◌, ◌≢◌, refl, sym, ap, ◌∙◌, false, not, some, List, [], ◌∷◌, arith,
  All, ◌==◌, ==_iff, Bool-cases, Option-cases, inl, inr, nat_eq,
}
use xenium.Prelude.Bytes.{Bytes, bytes_key}
use xenium.Prelude.Int.{ltb_ℤ}
use xenium.Dict.{lookup, insert}
use xenium.Domain.{Block, State, Validator, Validators, ok, >>=-eq-ok, Result-cases}
use xenium.Crypto.{Crypto}
use xenium.Stake.{min_stake}
use xenium.Ledger.{apply_transactions}
use xenium.Poh.{ticks_per_slot, parse_poh_hash_hex, replay, verify_poh}
use xenium.Poh.Verify.{verify_poh_sound}
use xenium.Leader.{leader_from_snapshot}
use xenium.Signing.{tx_root, state_root}
use xenium.Signing.Transactions.{IsBound}
use xenium.Signing.Blocks.{IsSealed, verify_block_signature_sound}
use xenium.Chain.{Blockchain, ChainConfig, Epochs, EpochSnapshot}
use xenium.Chain.Epoch.{epoch_for_slot, ensure_snapshot, snapshot_for_slot}
use xenium.Chain.Epoch.Frozen.{Extends, ensure_snapshot-Extends}
use xenium.Chain.Rebuild.{validator_reward_address}
use xenium.Chain.Accept.{verify_transactions, verify_leader_snapshot}
use xenium.Chain.Accept.Sound.{eq_of_passed, verify_from-IsBound}
use xenium.Chain.Verify.{
  verify_block_link, verify_validator, is_seen, Cursor, verify_block_sig, verify_change,
  verify_produced, verify_drawn, verify_next, verify_block_hash,
}

module _ (c : Crypto) where
  -- A block between the states before and behind it, by the validators and the stored snapshots.
  pub record IsProduced (validators : Validators) (config : ChainConfig) (e : Epochs) (cur : Block)
      (before next : State) : Type 0 where
    pub snapshot : EpochSnapshot
    pub producer : Validator
    pub drawn : lookup (epoch_for_slot config cur.slot) e.snapshots ≡ some snapshot
    pub leads : leader_from_snapshot c cur.slot snapshot.validators ≡ cur.validator
    pub known : lookup cur.validator validators ≡ some producer
    pub staked : ltb_ℤ producer.stake min_stake ≡ false
    pub sealed : IsSealed c cur producer.pub_key
    pub bound : All (IsBound c) cur.transactions
    pub listed : tx_root c cur.transactions ≡ cur.tx_root
    pub applied :
        apply_transactions before cur.transactions
          (validator_reward_address c validators cur.validator)
        ≡ ok next
    pub left : state_root c next ≡ cur.state_root

  -- A block on the one before it: linked, later, and with the hash of the ticks since.
  pub record IsNext (prev cur : Block) : Type 0 where
    pub linked : cur.prev_hash ≡ prev.hash
    pub in_order : prev.slot ≤ cur.slot
    pub later : prev.tick < cur.tick
    pub of_tick : cur.slot ≡ cur.tick / ticks_per_slot
    pub start : Bytes
    pub start_at : parse_poh_hash_hex prev.poh_hash ≡ ok start
    pub ticked :
        parse_poh_hash_hex cur.poh_hash ≡ ok (replay c (cur.tick - prev.tick) (prev.tick + 1) start)

  -- The blocks behind `prev`, which stands behind the blocks `done`, between two states.
  pub data Verified (validators : Validators) (config : ChainConfig) (e : Epochs)
      : List Block → Block → List Block → State → State → Type 0 where
    ended :
        {done : List Block} {prev : Block} {s : State}
        → Verified validators config e done prev [] s s
    follows :
        {done rest : List Block} {prev cur : Block} {s t u : State}
        → IsNext prev cur
        → IsProduced validators config e cur s t
        → All (λ b. b.slot ≢ cur.slot) done
        → Verified validators config e (cur ∷ done) cur rest t u
        → Verified validators config e done prev (cur ∷ rest) s u

  pub Verified-same :
      {v v' : Validators} {config config' : ChainConfig} {e : Epochs} {done rest : List Block}
      {prev : Block} {s t : State}
      → v' ≡ v
      → config' ≡ config
      → Verified v' config' e done prev rest s t
      → Verified v config e done prev rest s t
  Verified-same same_v same_config h = rw (sym same_v, sym same_config) h

  verify_change-eq-ok :
      (i : ℕ) (cur : Block) (state : State) (bc : Blockchain) {next : State}
      → verify_change c i cur state bc ≡ ok next
      → (tx_root c cur.transactions ≡ cur.tx_root)
        × (apply_transactions state cur.transactions
              (validator_reward_address c bc.validators cur.validator)
            ≡ ok next)
        × (state_root c next ≡ cur.state_root)
  unfolding verify_change
  verify_change-eq-ok i cur state bc {next} h =
      let applied =
        apply_transactions state cur.transactions
          (validator_reward_address c bc.validators cur.validator) in
      elim (Result-cases applied) [
        | inr (e, failed) ↦ absurd (ground arith)
        | inl (t, went) ↦ ground (
          arith,
          ==_iff (tx_root c cur.transactions) cur.tx_root,
          ==_iff (state_root c t) cur.state_root,
        )
      ]

  verify_validator-eq-ok :
      (name : Bytes) (validators : Validators) (i : ℕ) {v : Validator}
      → verify_validator name validators i ≡ ok v
      → (lookup name validators ≡ some v) × (ltb_ℤ v.stake min_stake ≡ false)
  unfolding verify_validator
  verify_validator-eq-ok name validators i {v} h = elim (Option-cases (lookup name validators)) [
    | inl missing ↦ absurd (ground arith)
    | inr (w, found) ↦ ground arith
  ]

  verify_produced-IsProduced :
      (i : ℕ) (cur : Block) (snap : EpochSnapshot) (at : Cursor) (bc : Blockchain)
      (config : ChainConfig) (e : Epochs) {next : State}
      → lookup (epoch_for_slot config cur.slot) e.snapshots ≡ some snap
      → verify_produced c i cur snap at bc ≡ ok next
      → IsProduced bc.validators config e cur at.state next
        × (is_seen cur.slot at.seen_slots ≡ false)
  unfolding verify_produced verify_leader_snapshot verify_block_sig verify_transactions
  verify_produced-IsProduced i cur snap at bc config e {next} drawn h =
      elim (Bool-cases (not (leader_from_snapshot c cur.slot snap.validators == cur.validator))) [
        | inl other ↦ absurd (ground arith)
        | inr leads ↦ elim (Bool-cases (is_seen cur.slot at.seen_slots)) [
          | inl twice ↦ absurd (ground arith)
          | inr once ↦
              let (v, valid, h1) =
                >>=-eq-ok (verify_validator cur.validator bc.validators i) _
                  (rw (leads, once) at h) in
              let (u, signed, h2) = >>=-eq-ok (verify_block_sig c cur v) _ h1 in
              let (w, bound, h3) = >>=-eq-ok (verify_transactions c cur.transactions) _ h2 in
              let (listed, applied, left) = verify_change-eq-ok i cur at.state bc h3 in
              let (known, staked) = verify_validator-eq-ok cur.validator bc.validators i valid in
              (
                record {
                  snapshot = snap;
                  producer = v;
                  drawn = drawn;
                  leads =
                      eq_of_passed (leader_from_snapshot c cur.slot snap.validators) cur.validator
                        leads;
                  known = known;
                  staked = staked;
                  sealed = verify_block_signature_sound c cur v.pub_key signed;
                  bound = verify_from-IsBound c 0 cur.transactions bound;
                  listed = listed;
                  applied = applied;
                  left = left;
                },
                once,
              )
        ]
      ]

  pub IsProduced-Extends :
      {validators : Validators} {config : ChainConfig} {e e' : Epochs} {cur : Block} {s t : State}
      → Extends e e'
      → IsProduced validators config e cur s t
      → IsProduced validators config e' cur s t
  IsProduced-Extends {config = config} {cur = cur} more p = record {
    snapshot = p.snapshot;
    producer = p.producer;
    drawn = more.at (epoch_for_slot config cur.slot) p.snapshot p.drawn;
    leads = p.leads;
    known = p.known;
    staked = p.staked;
    sealed = p.sealed;
    bound = p.bound;
    listed = p.listed;
    applied = p.applied;
    left = p.left;
  }

  -- The cursor stands behind `prev`.
  pub record IsBehind (prev : Block) (at : Cursor) : Type 0 where
    pub tick : at.expected_tick ≡ prev.tick
    pub hash : parse_poh_hash_hex prev.poh_hash ≡ ok at.expected_hash

  -- A round of the loop that goes on.
  pub record IsRound (prev cur : Block) (at at' : Cursor) (bc bc' : Blockchain) : Type 0 where
    pub next : IsNext prev cur
    pub produced : IsProduced bc.validators bc.config bc'.epochs cur at.state at'.state
    pub once : is_seen cur.slot at.seen_slots ≡ false
    pub behind : IsBehind cur at'
    pub seen : at'.seen_slots ≡ insert cur.slot cur.validator at.seen_slots
    pub same_validators : bc'.validators ≡ bc.validators
    pub same_config : bc'.config ≡ bc.config
    pub more : Extends bc.epochs bc'.epochs

  verify_block_link-eq-ok :
      (prev cur : Block)
      → verify_block_link prev cur ≡ ok tt
      → (cur.prev_hash ≡ prev.hash) × (prev.slot ≤ cur.slot)
  unfolding verify_block_link
  verify_block_link-eq-ok prev cur h = ground (arith, ==_iff cur.prev_hash prev.hash)

  IsNext-behind :
      (prev cur : Block) (at : Cursor) (hash : Bytes) (tick : ℕ)
      → IsBehind prev at
      → verify_block_link prev cur ≡ ok tt
      → verify_poh c at.expected_hash at.expected_tick cur ≡ some (ok (hash, tick))
      → IsNext prev cur × (tick ≡ cur.tick) × (parse_poh_hash_hex cur.poh_hash ≡ ok hash)
  IsNext-behind prev cur at hash tick behind near right =
      let (linked, in_order) = verify_block_link-eq-ok prev cur near in
      let (later, ends, of_tick, parsed, replayed) =
        verify_poh_sound c at.expected_hash at.expected_tick cur {hash' = hash} {t' = tick} right in
      let tick_at = behind.tick in
      (
        record {
          linked = linked;
          in_order = in_order;
          later = omega (arith, later, tick_at);
          of_tick = of_tick;
          start = at.expected_hash;
          start_at = behind.hash;
          ticked = rw (sym tick_at, sym replayed) parsed;
        },
        ends,
        parsed,
      )

  verify_drawn-IsRound :
      (i : ℕ) (prev cur : Block) (hash : Bytes) (tick : ℕ) (at : Cursor) (bc : Blockchain)
      {at' : Cursor} {bc' : Blockchain}
      → IsNext prev cur
      → tick ≡ cur.tick
      → parse_poh_hash_hex cur.poh_hash ≡ ok hash
      → verify_drawn c i cur hash tick at bc ≡ some (ok at', bc')
      → IsRound prev cur at at' bc bc'
  unfolding verify_drawn snapshot_for_slot
  verify_drawn-IsRound i prev cur hash tick at bc {at'} {bc'} next ends parsed h =
      let epoch = epoch_for_slot bc.config cur.slot in
      let epochs = ensure_snapshot c bc epoch bc.epochs in
      let asked : Blockchain = record bc { epochs = epochs } in
      elim (Option-cases (lookup epoch epochs.snapshots)) [
        | inl missing ↦ absurd (ground arith)
        | inr (s, drawn) ↦ elim (Result-cases (verify_produced c i cur s at asked)) [
          | inr (e, wrong) ↦ absurd (ground arith)
          | inl (t, good) ↦
              let (produced, once) =
                verify_produced-IsProduced i cur s at asked bc.config epochs drawn good in
              let ahead : Cursor = record {
                expected_hash = hash;
                expected_tick = tick;
                seen_slots = insert cur.slot cur.validator at.seen_slots;
                state = t;
              } in
              let round : IsRound prev cur at ahead bc asked = record {
                next = next;
                produced = produced;
                once = once;
                behind = record { tick = ends; hash = parsed };
                seen = refl;
                same_validators = refl;
                same_config = refl;
                more = ensure_snapshot-Extends c bc epoch bc.epochs;
              } in
              let (moved, left) : (at' ≡ ahead) × (bc' ≡ asked) = ground arith in
              rw (moved, left) round
        ]
      ]

  pub verify_next-IsRound :
      (i : ℕ) (prev cur : Block) (at : Cursor) (bc : Blockchain) {at' : Cursor} {bc' : Blockchain}
      → IsBehind prev at
      → verify_next c i prev cur at bc ≡ some (ok at', bc')
      → IsRound prev cur at at' bc bc'
  unfolding verify_next
  verify_next-IsRound i prev cur at bc {at'} {bc'} behind h =
      elim (Result-cases (verify_block_link prev cur)) [
        | inr (e, apart) ↦ absurd (ground arith)
        | inl (u, near) ↦ elim (Option-cases (verify_poh c at.expected_hash at.expected_tick cur)) [
          | inl endless ↦ absurd (ground arith)
          | inr (checked, over) ↦ elim (Result-cases checked) [
            | inr (e, wrong) ↦ absurd (ground arith)
            | inl ((hash, tick), right) ↦ elim (Result-cases (verify_block_hash c cur)) [
              | inr (e, wrong) ↦ absurd (ground arith)
              | inl (w, hashed) ↦
                  let (next, ends, parsed) =
                    IsNext-behind prev cur at hash tick behind near (over ∙ ap some right) in
                  verify_drawn-IsRound i prev cur hash tick at bc next ends parsed (ground arith)
            ]
          ]
        ]
      ]
