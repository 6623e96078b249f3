-- ===== src/Supervised/History.antt =====
-- supervised/record.go: the history is the newest part of a sorted insertion.
use statemachine.Prelude.{
  ℕ, ◌+◌, ◌-◌, ◌==◌, ◌≤◌, ◌<◌, ◌≡◌, refl, ap, true, false, inl, inr, List, [], ◌∷◌, if◌then◌else◌,
  ltb, leb, length, All, Pairs, All-map, Bool-cases, arith,
}
use statemachine.Supervised.Types.{Record, Supervisor, max_u64}
use statemachine.Supervised.Records.{position, present_at, insert_at, behind, append_record}

module _ {S E : Type 0} where
  -- Older records before newer ones, no number twice.
  abbrev pub Older : Record S E → Record S E → Type 0
  Older a b = a.seq < b.seq

  -- The reference: insertion in order, except of a number that is there.
  unfoldable pub insert_sorted : Record S E → List (Record S E) → List (Record S E)
  insert_sorted r [] = r ∷ []
  insert_sorted r (q ∷ rs) =
      let later = q ∷ insert_sorted r rs in
      if ltb q.seq r.seq then later else if q.seq == r.seq then q ∷ rs else r ∷ q ∷ rs

  -- The newest so many of at most one more.
  abbrev pub newest : ℕ → List (Record S E) → List (Record S E)
  newest n rs = if leb (length rs) n then rs else behind rs

  insert_at-position :
      (r : Record S E) (rs : List (Record S E))
      → present_at rs (position rs r.seq) r.seq ≡ false
      → (insert_at (position rs r.seq) r rs ≡ insert_sorted r rs)
        × (length (insert_sorted r rs) ≡ length rs + 1)
  unfolding insert_at position present_at insert_sorted
  insert_at-position r [] h = (refl, omega arith)
  insert_at-position r (q ∷ rs) h = elim (Bool-cases (ltb q.seq r.seq)) [
    | inl lower ↦
        let (e, l) = insert_at-position r rs (ground (arith, h, lower)) in
        (ground (arith, lower, e), ground (arith, lower, l))
    | inr upper ↦ (ground (arith, h, upper), ground (arith, h, upper))
  ]

  insert_sorted-present :
      (r : Record S E) (rs : List (Record S E))
      → present_at rs (position rs r.seq) r.seq ≡ true
      → insert_sorted r rs ≡ rs
  unfolding position present_at insert_sorted
  insert_sorted-present r [] h = absurd (ground (arith, h))
  insert_sorted-present r (q ∷ rs) h = elim (Bool-cases (ltb q.seq r.seq)) [
    | inl lower ↦ ground (arith, lower, insert_sorted-present r rs (ground (arith, h, lower)))
    | inr upper ↦ ground (arith, h, upper)
  ]

  insert_sorted-All :
      (n : ℕ) (r : Record S E) (rs : List (Record S E))
      → n < r.seq
      → All (λ x. n < x.seq) rs
      → All (λ x. n < x.seq) (insert_sorted r rs)
  unfolding insert_sorted
  insert_sorted-All n r [] h k = (h, tt)
  insert_sorted-All n r (q ∷ rs) h k = ground (arith, insert_sorted-All n r rs h k.1)

  below_all :
      (n m : ℕ) (rs : List (Record S E)) → n < m → All (λ x. m < x.seq) rs → All (λ x. n < x.seq) rs
  below_all n m rs h = All-map (λ x. m < x.seq) (λ x. n < x.seq) rs (λ x k. omega (arith, h, k))

  insert_sorted-Older :
      (r : Record S E) (rs : List (Record S E)) → Pairs Older rs → Pairs Older (insert_sorted r rs)
  unfolding insert_sorted
  insert_sorted-Older r [] h = (tt, tt)
  insert_sorted-Older r (q ∷ rs) h = elim (Bool-cases (ltb q.seq r.seq)) [
    | inl lower ↦
        rw (lower, insert_sorted)
          (insert_sorted-All q.seq r rs (ground (arith, lower)) h.0, insert_sorted-Older r rs h.1)
    | inr upper ↦ elim (Bool-cases (q.seq == r.seq)) [
      | inl same ↦ rw (upper, same, insert_sorted) h
      | inr differ ↦
          let higher : r.seq < q.seq = ground (arith, upper, differ) in
          rw (upper, differ, insert_sorted) ((higher, below_all r.seq q.seq rs higher h.0), h)
    ]
  ]

  behind-Older : (rs : List (Record S E)) → Pairs Older rs → Pairs Older (behind rs)
  behind-Older [] h = h
  behind-Older (r ∷ rs) h = h.1

  -- The history after a record of a full one, by the index that the record goes to.
  full :
      (r : Record S E) (rs : List (Record S E))
      → present_at rs (position rs r.seq) r.seq ≡ false
      → 1 ≤ length rs
      → (if position rs r.seq == 0 then rs else insert_at (position rs r.seq - 1) r (behind rs))
        ≡ behind (insert_sorted r rs)
  unfolding position present_at insert_at insert_sorted
  full r [] h one = absurd (omega (arith, one))
  full r (q ∷ rs) h one = elim (Bool-cases (ltb q.seq r.seq)) [
    | inl lower ↦
        let (e, l) = insert_at-position r rs (ground (arith, h, lower)) in ground (arith, lower, e)
    | inr upper ↦ ground (arith, h, upper)
  ]

  newest-Older :
      (n : ℕ) (rs : List (Record S E))
      → length rs ≤ n + 1
      → Pairs Older rs
      → (length (newest n rs) ≤ n) × Pairs Older (newest n rs)
  newest-Older n [] h k = (ground arith, ground arith)
  newest-Older n (r ∷ rs) h k = elim (Bool-cases (leb (length (r ∷ rs)) n)) [
    | inl fits ↦ rw fits (ground (arith, fits), k)
    | inr over ↦ rw over (omega (arith, h), k.1)
  ]

  behind-length : (rs : List (Record S E)) → length (behind rs) ≡ length rs - 1
  behind-length [] = omega arith
  behind-length (r ∷ rs) = omega arith

  -- The two fields that append_record changes.
  append_record-fields :
      (s : Supervisor S E) (r : Record S E)
      → 1 ≤ s.max_records
      → length s.records ≤ s.max_records
      → let s' = append_record s r in
        (s'.records ≡ newest s.max_records (insert_sorted r s.records))
        × (length (insert_sorted r s.records) ≤ s.max_records + 1)
        × (s.dropped_records < max_u64
            → s'.dropped_records + length s'.records
              ≡ s.dropped_records + length (insert_sorted r s.records))
  unfolding append_record
  append_record-fields s r one most =
      elim (Bool-cases (present_at s.records (position s.records r.seq) r.seq)) [
        | inl there ↦
            let e = insert_sorted-present r s.records there in
            (ground (arith, there, e), ground (arith, e), λ h. ground (arith, there, e))
        | inr new ↦
            let (at, l) = insert_at-position r s.records new in
            elim (Bool-cases (length s.records == s.max_records)) [
              | inl is_full ↦
                  let e = full r s.records new (ground (arith, is_full)) in
                  let k = behind-length (insert_sorted r s.records) in
                  (
                    ground (arith, new, is_full, e, l),
                    ground (arith, l),
                    λ h. ground (arith, new, is_full, ap length e, k, l),
                  )
              | inr room ↦ (
                ground (arith, new, room, at, l),
                ground (arith, l),
                λ h. ground (arith, new, room, at, l),
              )
            ]
      ]

  -- A record enters the history as by sorted insertion, of which the newest so many stay: the
  -- history is never longer than its limit, it stays in the order of the numbers with none twice,
  -- and every record that it loses is counted as dropped, as far as that counter goes.
  pub append_record-newest :
      (s : Supervisor S E) (r : Record S E)
      → 1 ≤ s.max_records
      → length s.records ≤ s.max_records
      → Pairs Older s.records
      → let s' = append_record s r in
        (s'.records ≡ newest s.max_records (insert_sorted r s.records))
        × (length s'.records ≤ s.max_records)
        × Pairs Older s'.records
        × (s.dropped_records < max_u64
            → s'.dropped_records + length s'.records
              ≡ s.dropped_records + length (insert_sorted r s.records))
  append_record-newest s r one most sorted =
      let (e, l, d) = append_record-fields s r one most in
      let (b, o) =
        newest-Older s.max_records (insert_sorted r s.records) l
          (insert_sorted-Older r s.records sorted) in
      (e, rw e b, rw e o, d)
