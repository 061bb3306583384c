-- ===== src/Scan/Files.antt =====
-- What the closure of core/src/scan.rs that looks at a walked file finds of it.
use puppypeer.Prelude.{
  ◌≡◌, refl, inl, inr, ◌⊎◌, true, Option, none, some, List, [], ◌∷◌, All, Text, Bool-cases, arith,
  Result, ok, err, ==_iff,
}
use puppypeer.Scan.{
  FileHash, FileLocation, Host, Stat, Opened, hash_from, sha256_hash, hashed, handled, handle_path,
  has_datetimes, is_unchanged, looked_up, with_stat, scan_file, find_location,
}
use puppypeer.Scan.Stored.{Yields, time_eq_lem}

abbrev pub IsOk {ℓ} : {A : Type ℓ} → Result A → Type 0
IsOk (ok a) = Unit
IsOk (err e) = ⊥

-- A location has the size and the times that the file system tells.
pub record SameStat (l : FileLocation) (st : Stat) : Type 0 where
  pub size : l.size ≡ st.len
  pub created : l.created_at ≡ st.created
  pub modified : l.modified_at ≡ st.modified
  pub accessed : l.accessed_at ≡ st.accessed

abbrev pub HasHash : FileLocation → Type 0
HasHash l = Yields (λ h. Unit {0}) l.hash

module _ (host : Host) where
  open host use {digest, metadata, open_file}

  -- The file can be looked at and read to its end, under its canonical path, and chrono holds its times.
  abbrev pub IsReadable : Text → Type 0
  IsReadable p =
      Yields (λ st. has_datetimes host st ≡ true) (metadata p)
      × Yields
          (λ o.
            (o.full_path ≡ p)
            × (o.rewinds ≡ true)
            × All IsOk o.reads
            × (has_datetimes host o.stat ≡ true))
          (open_file p)

  -- The location is the file as it is read now, with the digest of what is read; or it has the size and
  -- the times that the file has now, which are those of the row before, with that row's hash.
  abbrev pub IsCurrent : Text → Option FileLocation → FileLocation → Type 0
  IsCurrent p old l =
      ((o : Opened) × (h : FileHash) × (open_file p ≡ some o)
        × (sha256_hash digest o.reads ≡ ok h)
        × SameStat l o.stat
        × (l.hash ≡ some h))
      ⊎ ((st : Stat) × (metadata p ≡ some st)
          × SameStat l st
          × Yields (λ prev. SameStat prev st × (l.hash ≡ prev.hash)) old)

  hash_from-IsOk :
      (ctx : digest.Context) (rs : List (Result Text))
      → All IsOk rs
      → IsOk (hash_from digest ctx rs)
  unfolding hash_from
  hash_from-IsOk ctx [] h = tt
  hash_from-IsOk ctx (err e ∷ rs) h = absurd h.0
  hash_from-IsOk ctx (ok [] ∷ rs) h = tt
  hash_from-IsOk ctx (ok (b ∷ bs) ∷ rs) h = hash_from-IsOk (digest.update ctx (b ∷ bs)) rs h.1

  hashed_lem :
      (p : Text) (old : Option FileLocation) (o : Opened) (r : Result FileHash)
      → open_file p ≡ some o
      → sha256_hash digest o.reads ≡ r
      → IsOk r
      → o.full_path ≡ p
      → Yields (λ l. (l.path ≡ p) × HasHash l × IsCurrent p old l) (hashed host o r)
  hashed_lem p old o (err e) f g k path = absurd k
  hashed_lem p old o (ok h) f g k path = (
    path,
    tt,
    inl (
      o,
      h,
      f,
      g,
      record { size = refl; created = refl; modified = refl; accessed = refl },
      refl,
    ),
  )

  handled_lem :
      (p : Text) (old : Option FileLocation) (q : Option Opened)
      → open_file p ≡ q
      → Yields
          (λ o.
            (o.full_path ≡ p)
            × (o.rewinds ≡ true)
            × All IsOk o.reads
            × (has_datetimes host o.stat ≡ true))
          q
      → Yields (λ l. (l.path ≡ p) × HasHash l × IsCurrent p old l) (handled host q)
  handled_lem p old none f h = absurd h
  handled_lem p old (some o) f h =
      unfold sha256_hash in
      rw (h.3, h.1)
        (hashed_lem p old o (sha256_hash digest o.reads) f refl
          (hash_from-IsOk digest.start o.reads h.2) h.0)

  pub handle_path_lem :
      (p : Text) (old : Option FileLocation)
      → IsReadable p
      → Yields (λ l. (l.path ≡ p) × HasHash l × IsCurrent p old l) (handle_path host p)
  unfolding handle_path
  handle_path_lem p old h = handled_lem p old (open_file p) refl h.1

  is_unchanged-SameStat :
      (prev : FileLocation) (st : Stat) → is_unchanged prev st ≡ true → SameStat prev st
  is_unchanged-SameStat prev st h = record {
    size = (==_iff prev.size st.len).0 (ground (arith, h));
    created = time_eq_lem prev.created_at st.created (ground (arith, h));
    modified = time_eq_lem prev.modified_at st.modified (ground (arith, h));
    accessed = time_eq_lem prev.accessed_at st.accessed (ground (arith, h));
  }

  -- The location before has a hash, if there is one.
  abbrev pub OldHasHash : Option FileLocation → Type 0
  OldHasHash none = Unit
  OldHasHash (some l) = HasHash l

  looked_up_lem :
      (p : Text) (old : Option FileLocation) (st : Stat)
      → metadata p ≡ some st
      → IsReadable p
      → OldHasHash old
      → Yields (λ l. (l.path ≡ p) × HasHash l × IsCurrent p old l) (looked_up host p old st)
  looked_up_lem p none st e r h = handle_path_lem p none r
  looked_up_lem p (some prev) st e r h = elim (Bool-cases (is_unchanged prev st)) [
    | inl u ↦ rw u (
      refl,
      h,
      inr (
        st,
        e,
        record { size = refl; created = refl; modified = refl; accessed = refl },
        (is_unchanged-SameStat prev st u, refl),
      ),
    )
    | inr u ↦ rw u (handle_path_lem p (some prev) r)
  ]

  with_stat_lem :
      (p : Text) (old : Option FileLocation) (q : Option Stat)
      → metadata p ≡ q
      → Yields (λ st. has_datetimes host st ≡ true) q
      → IsReadable p
      → OldHasHash old
      → Yields (λ l. (l.path ≡ p) × HasHash l × IsCurrent p old l) (with_stat host p old q)
  with_stat_lem p old none e k r h = absurd k
  with_stat_lem p old (some st) e k r h = rw k (looked_up_lem p old st e r h)

  pub scan_file_lem :
      (existing : List FileLocation) (p : Text)
      → IsReadable p
      → OldHasHash (find_location p existing)
      → Yields
          (λ l. (l.path ≡ p) × HasHash l × IsCurrent p (find_location p existing) l)
          (scan_file host existing p)
  unfolding scan_file
  scan_file_lem existing p r h =
      with_stat_lem p (find_location p existing) (metadata p) refl r.0 r h
