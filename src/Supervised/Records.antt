-- ===== src/Supervised/Records.antt =====
-- supervised/record.go: the bounded history of lifecycle records.
use statemachine.Prelude.{
  ℕ, zero, suc, ◌+◌, ◌-◌, ◌==◌, Bool, false, ◌||◌, List, [], ◌∷◌, if◌then◌else◌, ltb, length,
}
use statemachine.Supervised.Types.{Record, RecordKind, Stamp, Result, Supervisor, max_u64}
use statemachine.Supervised.Sections.{stamp}

-- A counter that stops at its ceiling.
abbrev pub saturate : ℕ → ℕ
saturate n = if ltb n max_u64 then n + 1 else n

module _ {S E : Type 0} where
  -- slices.BinarySearchFunc by Seq on a sorted slice: the first index that is not below, and whether
  -- the number stands there.
  unfoldable pub position : List (Record S E) → ℕ → ℕ
  position [] seq = 0
  position (r ∷ rs) seq = let later = position rs seq in if ltb r.seq seq then suc later else 0

  unfoldable pub present_at : List (Record S E) → ℕ → ℕ → Bool
  present_at [] i seq = false
  present_at (r ∷ rs) zero seq = r.seq == seq
  present_at (r ∷ rs) (suc i) seq = present_at rs i seq

  -- The append, the copy and the write that make room at an index.
  unfoldable pub insert_at : ℕ → Record S E → List (Record S E) → List (Record S E)
  insert_at zero r rs = r ∷ rs
  insert_at (suc i) r [] = r ∷ []
  insert_at (suc i) r (q ∷ rs) = q ∷ insert_at i r rs

  -- s.records[1:]
  abbrev pub behind : List (Record S E) → List (Record S E)
  behind [] = []
  behind (r ∷ rs) = rs

  -- appendRecordLocked
  unfoldable pub append_record : Supervisor S E → Record S E → Supervisor S E
  unfolding position present_at insert_at
  append_record s r =
      let index = position s.records r.seq in
      if present_at s.records index r.seq
      then s
      else if length s.records == s.max_records
      then (if index == 0
          then record s { dropped_records = saturate s.dropped_records }
          else record s {
            dropped_records = saturate s.dropped_records;
            records = insert_at (index - 1) r (behind s.records);
          })
      else record s { records = insert_at index r s.records }

  -- The section of recordResult: the record of an outcome, under the stamp of its decision or, where
  -- it has none, a stamp of its own.
  unfoldable pub record_result : Supervisor S E → RecordKind → Result S E → ℕ → Supervisor S E
  unfolding append_record stamp
  record_result s kind r now =
      let own = r.stamp.stamped || r.stamp.exhausted in
      let s' : Supervisor S E = if own then s else (stamp s now).0 in
      let t : Stamp = if own then r.stamp else (stamp s now).1 in
      if t.exhausted
      then record s' { dropped_records = saturate s'.dropped_records }
      else append_record s' (record { seq = t.seq; kind = kind; stamp = t; outcome = r })
