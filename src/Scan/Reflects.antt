-- ===== src/Scan/Reflects.antt =====
-- What it means that a table holds what is on the disk, for core/src/scan.rs.
use puppypeer.Prelude.{
  ◌≡◌, refl, ◌∙◌, inl, inr, ◌⊎◌, ◌==◌, true, false, Option, none, some, List, [], ◌∷◌, All, Text,
  text_eq, Bool-cases,
}
use puppypeer.Scan.{NodeId, FileLocation, FileRow, Host, Stat}
use puppypeer.Scan.Store.{has_key}
use puppypeer.Scan.Locate.{locate, Unique}
use puppypeer.Scan.Existing.{IsOwn, pattern, stripped}
use puppypeer.Scan.Stored.{Yields, Yields-imp, SameFile, Agrees}
use puppypeer.Scan.Files.{SameStat, HasHash, OldHasHash, IsReadable, IsCurrent}
use puppypeer.Scan.Scanned.{DistinctPaths}

module _ (host : Host) where
  -- What the scan relies on: the query finds the walked files, each is walked once and can be read; the
  -- rows that it finds are the node's own and have a hash, and no two rows have one key.
  pub record IsReady (node : NodeId) (rows : List FileRow) : Type 0 where
    pub finds : All (λ p. host.like (pattern host) p ≡ true) host.walked
    pub once : DistinctPaths host.walked
    pub readable : All (IsReadable host) host.walked
    pub own : All (IsOwn (host.like (pattern host)) node) rows
    pub hashes : All (λ r. HasHash r.location) rows
    pub unique : Unique rows

  -- A walked file has a row that is current; a path that the query finds and that was not walked has none;
  -- and every other key of the table has what it had.
  pub record Reflects (node : NodeId) (before after : List FileRow) : Type 0 where
    pub walked :
        All
          (λ p. Yields (IsCurrent host p (locate node p before)) (locate node p after))
          host.walked
    pub gone :
        (p : Text)
        → host.like (pattern host) p ≡ true
        → All (λ q. text_eq q p ≡ false) host.walked
        → locate node p after ≡ none
    pub others :
        (n : NodeId) (p : Text)
        → ((node == n) ≡ false) ⊎ (host.like (pattern host) p ≡ false)
        → locate n p after ≡ locate n p before

  pub OldHasHash-stripped :
      (node : NodeId) (p : Text) (rows : List FileRow)
      → All (λ r. HasHash r.location) rows
      → OldHasHash host (stripped (locate node p rows))
  OldHasHash-stripped node p [] h = tt
  OldHasHash-stripped node p (r ∷ rs) h = elim (Bool-cases (has_key node p r)) [
    | inl e ↦ rw e h.0
    | inr e ↦ rw e (OldHasHash-stripped node p rs h.1)
  ]

  pub Agrees-stripped :
      (node : NodeId) (p : Text) (o : Option FileLocation) (rows : List FileRow)
      → locate node p rows ≡ o
      → Agrees node p (stripped o) rows
  Agrees-stripped node p none rows e = e
  Agrees-stripped node p (some l) rows e = rw e (record {
    hash = refl;
    size = refl;
    created_at = refl;
    modified_at = refl;
    accessed_at = refl;
  })

  SameFile-SameStat :
      (k l : FileLocation) (st : Stat) → SameFile k l → SameStat l st → SameStat k st
  SameFile-SameStat k l st s e = record {
    size = s.size ∙ e.size;
    created = s.created_at ∙ e.created;
    modified = s.modified_at ∙ e.modified;
    accessed = s.accessed_at ∙ e.accessed;
  }

  pub SameFile-IsCurrent :
      (p : Text) (old : Option FileLocation) (k l : FileLocation)
      → SameFile k l
      → IsCurrent host p old l
      → IsCurrent host p old k
  SameFile-IsCurrent p old k l s (inl (o, h, f, g, st, e)) =
      inl (o, h, f, g, SameFile-SameStat k l o.stat s st, s.hash ∙ e)
  SameFile-IsCurrent p old k l s (inr (st, f, e, y)) = inr (
    st,
    f,
    SameFile-SameStat k l st s e,
    Yields-imp (λ prev. SameStat prev st × (l.hash ≡ prev.hash))
        (λ prev. SameStat prev st × (k.hash ≡ prev.hash)) old (λ prev q. (q.0, s.hash ∙ q.1)) y,
  )

  pub IsCurrent-stripped :
      (p : Text) (o : Option FileLocation) (l : FileLocation)
      → IsCurrent host p (stripped o) l
      → IsCurrent host p o l
  IsCurrent-stripped p o l (inl r) = inl r
  IsCurrent-stripped p none l (inr (st, f, e, y)) = absurd y
  IsCurrent-stripped p (some prev) l (inr (st, f, e, y)) = inr (
    st,
    f,
    e,
    (
      record {
        size = y.0.size;
        created = y.0.created;
        modified = y.0.modified;
        accessed = y.0.accessed;
      },
      y.1,
    ),
  )
