-- ===== src/Purge/Rounds.antt =====
-- The rounds over a table, and over all tables of the registry.
use ai_de.Common.{
  ℕ, zero, suc, ◌+◌, ◌≤◌, ◌<◌, ◌≡◌, refl, ◌∙◌, true, false, not, List, [], ◌∷◌, length, any, filter,
  ltb, ◌==◌, if◌then◌else◌, if_elim, arith, All,
}
use ai_de.Purge.{
  Row, EngagementRef, TablePurger, Purged, in_engagement, carries_ciphertext, purge_batch,
  purge_rounds, purge_table, nullable, acl_purger, entity_purger, Tables, PurgeResult,
  purge_engagement_ciphertext,
}
use ai_de.Purge.Batch.{
  count, count-length, purge_batch-lt, purge_batch-short, purge_batch-le, purge_batch-others,
  purge_batch-none,
}

-- The rows that are not of the engagement.
abbrev pub others_in : {C : Type 0} → TablePurger C → EngagementRef → List (Row C) → List (Row C)
others_in p ref rows = filter (λ r. not (in_engagement p ref r)) rows

module _ {C : Type 0} (p : TablePurger C) (ref : EngagementRef) where
  -- The rounds ended by their test, nothing of the engagement carries ciphertext, the rows of other
  -- engagements are as they were, and no batch was over the limit.
  abbrev pub IsPurged : ℕ → List (Row C) → Purged C → Type 0
  IsPurged limit before r =
      (r.finished ≡ true)
      × (any (carries_ciphertext p ref) r.rows ≡ false)
      × (others_in p ref r.rows ≡ others_in p ref before)
      × All (λ n. n ≤ limit) r.batches

module _ {C : Type 0} (p : TablePurger C) (ref : EngagementRef)
    (clears : (c : C) → p.carries (p.blank c) ≡ false) (limit : ℕ) (positive : 0 < limit) where
  purge_rounds-IsPurged :
      (fuel : ℕ) (rows : List (Row C))
      → count (carries_ciphertext p ref) rows < fuel
      → IsPurged p ref limit rows (purge_rounds p ref fuel limit rows)
  unfolding purge_rounds
  purge_rounds-IsPurged zero rows h = absurd (omega (arith, h))
  purge_rounds-IsPurged (suc fuel) rows h =
      let b = purge_batch p ref limit rows in
      let rest = purge_rounds p ref fuel limit b.rows in
      let kept = purge_batch-others p ref clears limit rows in
      if_elim (IsPurged p ref limit rows) (b.purged == 0)
        {x = record { count = 0; batches = []; rows = b.rows; finished = true }}
        {y = if ltb b.purged limit
          then record { count = b.purged; batches = b.purged ∷ []; rows = b.rows; finished = true }
          else record rest { count = b.purged + rest.count; batches = b.purged ∷ rest.batches }}
        (λ q. (refl, purge_batch-short p ref clears limit rows (ground (arith, q)), kept, tt))
        (λ q.
          if_elim (IsPurged p ref limit rows) (ltb b.purged limit)
            {x = record {
              count = b.purged;
              batches = b.purged ∷ [];
              rows = b.rows;
              finished = true;
            }}
            {y = record rest { count = b.purged + rest.count; batches = b.purged ∷ rest.batches }}
            (λ k. (
              refl,
              purge_batch-short p ref clears limit rows (ground (arith, k)),
              kept,
              (purge_batch-le p ref clears limit rows, tt),
            ))
            (λ k.
              let less = purge_batch-lt p ref clears limit rows q in
              let (done, gone, same, small) =
                purge_rounds-IsPurged fuel b.rows (omega (arith, less, h)) in
              (done, gone, same ∙ kept, (purge_batch-le p ref clears limit rows, small))))

  pub purge_table-IsPurged :
      (rows : List (Row C)) → IsPurged p ref limit rows (purge_table p ref limit rows)
  unfolding purge_table
  purge_table-IsPurged rows =
      purge_rounds-IsPurged (suc (length rows)) rows
        (omega (arith, count-length (carries_ciphertext p ref) rows))

-- Nothing to purge: the table stays, and nothing is counted.
purge_table-none :
    {C : Type 0} (p : TablePurger C) (ref : EngagementRef) (limit : ℕ) (rows : List (Row C))
    → any (carries_ciphertext p ref) rows ≡ false
    → ((purge_table p ref limit rows).count ≡ 0) × ((purge_table p ref limit rows).rows ≡ rows)
unfolding purge_table purge_rounds
purge_table-none p ref limit rows h =
    let e = purge_batch-none p ref limit rows h in rw e (refl, refl)

-- What a run has done to the table of a purger.
abbrev pub IsClean :
    {C : Type 0} → TablePurger C → EngagementRef → List (Row C) → List (Row C) → Type 0
IsClean p ref before after =
    (any (carries_ciphertext p ref) after ≡ false)
    × (others_in p ref after ≡ others_in p ref before)

abbrev pub AreClean : EngagementRef → Tables → Tables → Type 0
AreClean ref before after =
    IsClean (nullable "facts") ref before.facts after.facts
    × IsClean (nullable "evidence") ref before.evidence after.evidence
    × IsClean (nullable "sources") ref before.sources after.sources
    × IsClean acl_purger ref before.acl_snapshots after.acl_snapshots
    × IsClean entity_purger ref before.entities after.entities
    × IsClean (nullable "connector_config") ref before.connector_config after.connector_config

-- A run over tables that are clean.
clean_again :
    (limit : ℕ) (ref : EngagementRef) (t u : Tables)
    → AreClean ref t u
    → ((purge_engagement_ciphertext limit ref u).total_rows_purged ≡ 0)
      × ((purge_engagement_ciphertext limit ref u).tables ≡ u)
unfolding purge_engagement_ciphertext
clean_again limit ref t u (a, b, c, d, e, f) =
    let fa = purge_table-none (nullable "facts") ref limit u.facts a.0 in
    let fb = purge_table-none (nullable "evidence") ref limit u.evidence b.0 in
    let fc = purge_table-none (nullable "sources") ref limit u.sources c.0 in
    let fd = purge_table-none acl_purger ref limit u.acl_snapshots d.0 in
    let fe = purge_table-none entity_purger ref limit u.entities e.0 in
    let ff = purge_table-none (nullable "connector_config") ref limit u.connector_config f.0 in
    (
      omega (arith, fa.0, fb.0, fc.0, fd.0, fe.0, ff.0),
      rw (fa.1, fb.1, fc.1, fd.1, fe.1, ff.1) refl,
    )

module _ (limit : ℕ) (positive : 0 < limit) (ref : EngagementRef) (t : Tables) where
  abbrev result : PurgeResult
  result = purge_engagement_ciphertext limit ref t

  clean :
      {C : Type 0} (p : TablePurger C)
      → ((c : C) → p.carries (p.blank c) ≡ false)
      → (rows : List (Row C)) → IsClean p ref rows (purge_table p ref limit rows).rows
  clean p clears rows =
      let (done, gone, same, small) = purge_table-IsPurged p ref clears limit positive rows in
      (gone, same)

  ended :
      {C : Type 0} (p : TablePurger C)
      → ((c : C) → p.carries (p.blank c) ≡ false)
      → (rows : List (Row C)) → (purge_table p ref limit rows).finished ≡ true
  ended p clears rows = (purge_table-IsPurged p ref clears limit positive rows).0

  -- For a positive batch size, the rounds over all six tables end by their own test, afterwards no
  -- row of the engagement carries ciphertext in any of them, and the rows of other engagements are
  -- as they were.
  pub purge_engagement_ciphertext-AreClean : (result.finished ≡ true) × AreClean ref t result.tables
  unfolding purge_engagement_ciphertext
  purge_engagement_ciphertext-AreClean = (
    ground (
      arith,
      ended (nullable "facts") (λ c. refl) t.facts,
      ended (nullable "evidence") (λ c. refl) t.evidence,
      ended (nullable "sources") (λ c. refl) t.sources,
      ended acl_purger (λ c. refl) t.acl_snapshots,
      ended entity_purger (λ c. refl) t.entities,
      ended (nullable "connector_config") (λ c. refl) t.connector_config,
    ),
    (
      clean (nullable "facts") (λ c. refl) t.facts,
      clean (nullable "evidence") (λ c. refl) t.evidence,
      clean (nullable "sources") (λ c. refl) t.sources,
      clean acl_purger (λ c. refl) t.acl_snapshots,
      clean entity_purger (λ c. refl) t.entities,
      clean (nullable "connector_config") (λ c. refl) t.connector_config,
    ),
  )

  -- For a positive batch size, a second purge of the same engagement purges no row and leaves the
  -- tables as the first one left them.
  purge_engagement_ciphertext_again :
      ((purge_engagement_ciphertext limit ref result.tables).total_rows_purged ≡ 0)
      × ((purge_engagement_ciphertext limit ref result.tables).tables ≡ result.tables)
  purge_engagement_ciphertext_again =
      clean_again limit ref t result.tables purge_engagement_ciphertext-AreClean.1
