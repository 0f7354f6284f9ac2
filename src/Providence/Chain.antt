-- ===== src/Providence/Chain.antt =====
-- What it means that a chain directory is sound: each record is at its position and names the digest of the
-- one before it, and the head names the number of records and the digest of the last.
use openclaw_nie_guard.Common.{
  ℕ, suc, ◌+◌, ◌≡◌, refl, sym, ap, ◌∙◌, String, some, true, false, List, [], ◌∷◌, ◌++◌, map, length,
  arith, ◌⊎◌, inl, inr,
}
use openclaw_nie_guard.Providence.Records.{ProvidenceRecord, record_fits}
use openclaw_nie_guard.Providence.Encoding.{Bytes, record_digest, genesis_digest}
use openclaw_nie_guard.Providence.Disk.{
  is_thrown, AnchorFile, GuardHead, missing, holds, record_line, Disk, Write,
}
use openclaw_nie_guard.Providence.Log.{opened}

module _ (sha256 : Bytes → String) where
  -- From position `n` and the digest `before`, the records lead to the digest `final`.
  abbrev pub Chained : ℕ → String → List ProvidenceRecord → String → Type 0
  Chained n before [] final = before ≡ final
  Chained n before (r ∷ rs) final =
      (r.seq ≡ n)
      × (r.prev_digest ≡ before)
      × (record_fits r ≡ true)
      × ((digest : String) × (record_digest sha256 r ≡ some digest)
          × Chained (suc n) digest rs final)

  -- The chain file holds whole lines with chained records from genesis on, and the head file their head.
  pub record Clean (disk : Disk) (head : GuardHead) : Type 0 where
    pub records : List ProvidenceRecord
    pub are_lines : disk.lines ≡ map record_line records
    pub is_whole : disk.is_partial ≡ false
    pub is_head : disk.head_file ≡ holds head
    pub at_end : head.seq ≡ length records
    pub chained : Chained 0 genesis_digest records head.head_digest

  -- Whoever opens the chain, it refuses and leaves the files; the anchors make no difference.
  abbrev pub Refuses : Disk → Type 0
  Refuses disk =
      (chain_id : String) (write : Write)
      → ((opened sha256 chain_id disk write).0 ≡ disk)
        × (is_thrown (opened sha256 chain_id disk write).2 ≡ true)

  abbrev pub Stuck : Disk → Type 0
  Stuck disk = (files : List AnchorFile) → Refuses (record disk { anchors = files })

  pub data SoundDisk (disk : Disk) : Type 0 where
    blank : disk.head_file ≡ missing → disk.lines ≡ [] → disk.is_partial ≡ false → SoundDisk disk
    clean : (head : GuardHead) → Clean disk head → SoundDisk disk
    stuck : Stuck disk → SoundDisk disk

  pub Chained-end :
      (n : ℕ) (before : String) (rs : List ProvidenceRecord) (last : String) (r : ProvidenceRecord)
      (digest : String)
      → Chained n before rs last
      → r.seq ≡ n + length rs
      → r.prev_digest ≡ last
      → record_fits r ≡ true
      → record_digest sha256 r ≡ some digest
      → Chained n before (rs ++ r ∷ []) digest
  Chained-end n before [] last r digest h at link fits e =
      (omega (arith, at), link ∙ sym h, fits, (digest, e, refl))
  Chained-end n before (x ∷ rs) last r digest (at_x, link_x, fits_x, (d, is_d, h)) at link fits e =
      (
        at_x,
        link_x,
        fits_x,
        (d, is_d, Chained-end (suc n) d rs last r digest h (omega (arith, at)) link fits e),
      )

  -- The last of some chained records has the last position, and its digest is the final one.
  pub Chained-last :
      (n : ℕ) (before : String) (rs : List ProvidenceRecord) (final : String)
      → Chained n before rs final
      → (rs ≡ [])
        ⊎ ((front : List ProvidenceRecord) × (r : ProvidenceRecord) × (rs ≡ front ++ r ∷ [])
            × (r.seq + 1 ≡ n + length rs)
            × (record_fits r ≡ true)
            × (record_digest sha256 r ≡ some final))
  Chained-last n before [] final h = inl refl
  Chained-last n before (r ∷ []) final (at, link, fits, (d, is_d, h)) =
      inr ([], r, refl, omega (arith, at), fits, is_d ∙ ap some h)
  Chained-last n before (r ∷ q ∷ rs) final (at, link, fits, (d, is_d, h)) =
      elim (Chained-last (suc n) d (q ∷ rs) final h) [
        | inl e ↦ absurd (ground (arith, e))
        | inr (front, x, e, at_x, fits_x, d_x) ↦
            inr (r ∷ front, x, ap (λ l. r ∷ l) e, omega (arith, at_x), fits_x, d_x)
      ]
