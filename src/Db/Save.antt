-- ===== src/Db/Save.antt =====
-- `save_peer_permissions` of core/src/db.rs replaces what the log of grants says of one pair of
-- peers, or changes nothing.
use puppypeer.Prelude.{
  String, ◌⊎◌, ◌≡◌, refl, not, ◌&&◌, ◌==◌, List, [], ◌∷◌, ◌++◌, map, retain, All, All-append,
  All-retain, retain-append, arith, retain-map, retain-ext, inl, inr, sym, ◌∙◌, ap, Result, ok, err,
  if◌then◌else◌,
}
use mathlib.Core.List.{append-nil, append_assoc, map-append}
use puppypeer.Rule.{Permission}
use puppypeer.State.{PeerId}
use puppypeer.Db.{
  PeerCodec, RoundTrips, Table, Faults, no_faults, row_of, is_between, insert_all, transaction,
  committed, save_peer_permissions,
}
use puppypeer.Db.Load.{
  Grant, Log, IsStorable, IsStorableLog, grant_is, granted_by, table_of, row, to_bytes-eq,
}

abbrev pub grants_to : PeerId → PeerId → List Permission → Log
grants_to src target = map (λ p. record { src = src; target = target; permission = p })

-- The log after a save: what it said of the pair gives way to the new permissions.
abbrev pub saved : Log → PeerId → PeerId → List Permission → Log
saved log src target ps = retain (λ g. not (grant_is src target g)) log ++ grants_to src target ps

module _ (codec : PeerCodec) where
  insert_all-ok :
      (f : Faults) (src target : PeerId) (ps : List Permission) (t t' : Table)
      → insert_all codec f src target ps t ≡ ok t'
      → t' ≡ t ++ map (row_of codec src target) ps
  unfolding insert_all
  insert_all-ok f src target [] t t' h = ground (arith, append-nil t)
  insert_all-ok f src target (p ∷ ps) t t' h = ground (
    arith,
    insert_all-ok f src target ps (t ++ row_of codec src target p ∷ []) t',
    append_assoc t (row_of codec src target p ∷ []) (map (row_of codec src target) ps),
  )

  insert_all-no_faults :
      (src target : PeerId) (ps : List Permission) (t : Table)
      → insert_all codec no_faults src target ps t ≡ ok (t ++ map (row_of codec src target) ps)
  unfolding insert_all
  insert_all-no_faults src target [] t = ground (arith, append-nil t)
  insert_all-no_faults src target (p ∷ ps) t =
      insert_all-no_faults src target ps (t ++ row_of codec src target p ∷ [])
      ∙ ap ok (append_assoc t (row_of codec src target p ∷ []) (map (row_of codec src target) ps))

  abbrev replaced : Table → PeerId → PeerId → List Permission → Table
  replaced t src target ps =
      retain (λ r. not (is_between codec src target r)) t ++ map (row_of codec src target) ps

  transaction-ok :
      (f : Faults) (src target : PeerId) (ps : List Permission) (t t' : Table)
      → transaction codec f src target ps t ≡ ok t'
      → t' ≡ replaced t src target ps
  unfolding transaction
  transaction-ok f src target ps t t' h = ground (
    arith,
    insert_all-ok f src target ps (retain (λ r. not (is_between codec src target r)) t) t',
  )

  transaction-no_faults :
      (src target : PeerId) (ps : List Permission) (t : Table)
      → transaction codec no_faults src target ps t ≡ ok (replaced t src target ps)
  unfolding transaction
  transaction-no_faults src target ps t = rw insert_all-no_faults refl

  -- The outcomes of a save, as a table: failed and unchanged, or done.
  abbrev Outcome : Table → Table → Result (Unit {0}) × Table → Type 0
  Outcome t t' (r, t'') = ((e : String) × (r ≡ err e) × (t'' ≡ t)) ⊎ ((r ≡ ok tt) × (t'' ≡ t'))

  committed-Outcome :
      (t t' : Table) (r : Result Table)
      → ((t'' : Table) → r ≡ ok t'' → t'' ≡ t')
      → Outcome t t' (committed t r)
  unfolding committed
  committed-Outcome t t' (ok t'') h = inr (refl, h t'' refl)
  committed-Outcome t t' (err e) h = inl (e, refl, refl)

  save-Outcome :
      (f : Faults) (t : Table) (src target : PeerId) (ps : List Permission)
      → Outcome t (replaced t src target ps) (save_peer_permissions codec f t src target ps)
  unfolding save_peer_permissions
  save-Outcome f t src target ps =
      committed-Outcome t (replaced t src target ps) (transaction codec f src target ps t)
        (transaction-ok f src target ps t)

  save-no_faults :
      (t : Table) (src target : PeerId) (ps : List Permission)
      → save_peer_permissions codec no_faults t src target ps ≡ (ok tt, replaced t src target ps)
  unfolding save_peer_permissions committed
  save-no_faults t src target ps = rw transaction-no_faults refl

map-grants_to :
    (codec : PeerCodec) (src target : PeerId) (ps : List Permission)
    → map (row codec) (grants_to src target ps) ≡ map (row_of codec src target) ps
map-grants_to codec src target [] = refl
map-grants_to codec src target (p ∷ ps) = cc (map-grants_to codec src target ps)

-- What the log grants after a save.
granted-grants_to :
    (src target a b : PeerId) (ps : List Permission)
    → granted_by (grants_to src target ps) a b ≡ (if src == a && target == b then ps else [])
granted-grants_to src target a b [] = ground arith
granted-grants_to src target a b (p ∷ ps) = ground (arith, granted-grants_to src target a b ps)

granted-dropped :
    (src target a b : PeerId) (log : Log)
    → granted_by (retain (λ g. not (grant_is src target g)) log) a b
      ≡ (if src == a && target == b then [] else granted_by log a b)
granted-dropped src target a b [] = ground arith
granted-dropped src target a b (g ∷ gs) = ground (arith, granted-dropped src target a b gs)

granted-append :
    (a b : PeerId) (l m : Log) → granted_by (l ++ m) a b ≡ granted_by l a b ++ granted_by m a b
granted-append a b l m = simp (retain-append, map-append)

pub granted-saved :
    (log : Log) (src target a b : PeerId) (ps : List Permission)
    → granted_by (saved log src target ps) a b
      ≡ (if src == a && target == b then ps else granted_by log a b)
granted-saved log src target a b ps =
    rw (granted-append a b, granted-dropped src target a b log, granted-grants_to src target a b ps)
      (ground (arith, append-nil (granted_by log a b)))

IsStorableLog-grants_to :
    (src target : PeerId) (ps : List Permission)
    → All IsStorable ps
    → IsStorableLog (grants_to src target ps)
IsStorableLog-grants_to src target [] h = tt
IsStorableLog-grants_to src target (p ∷ ps) h = (h.0, IsStorableLog-grants_to src target ps h.1)

pub IsStorableLog-saved :
    (log : Log) (src target : PeerId) (ps : List Permission)
    → IsStorableLog log
    → All IsStorable ps
    → IsStorableLog (saved log src target ps)
IsStorableLog-saved log src target ps h hp =
    All-append (λ g. IsStorable g.permission) (retain (λ g. not (grant_is src target g)) log) _
      (All-retain (λ g. IsStorable g.permission) (λ g. not (grant_is src target g)) log h)
      (IsStorableLog-grants_to src target ps hp)

module _ (codec : PeerCodec) (reads_back : RoundTrips codec) where
  between-row :
      (src target : PeerId) (g : Grant)
      → not (is_between codec src target (row codec g)) ≡ not (grant_is src target g)
  between-row src target g =
      rw (to_bytes-eq codec reads_back g.src src, to_bytes-eq codec reads_back g.target target) refl

  replaced-table_of :
      (log : Log) (src target : PeerId) (ps : List Permission)
      → replaced codec (table_of codec log) src target ps ≡ table_of codec (saved log src target ps)
  replaced-table_of log src target ps =
      rw
        (
          retain-map (λ r. not (is_between codec src target r)) (row codec) log,
          retain-ext (λ g. not (is_between codec src target (row codec g)))
              (λ g. not (grant_is src target g)) (between-row src target) log,
          map-append (row codec) (retain (λ g. not (grant_is src target g)) log)
              (grants_to src target ps),
        )
        (ap (◌++◌ _) (sym (map-grants_to codec src target ps)))

  -- A save on the table of a log either reports an error and leaves the table as it was, or
  -- reports success and leaves the table of the log in which what was said of the pair has given
  -- way to the given permissions.
  pub save_peer_permissions_lem :
      (f : Faults) (log : Log) (src target : PeerId) (ps : List Permission)
      → let (r, t') = save_peer_permissions codec f (table_of codec log) src target ps in
        ((e : String) × (r ≡ err e) × (t' ≡ table_of codec log))
        ⊎ ((r ≡ ok tt) × (t' ≡ table_of codec (saved log src target ps)))
  save_peer_permissions_lem f log src target ps =
      rw (replaced-table_of log src target ps) at
        (save-Outcome codec f (table_of codec log) src target ps)
