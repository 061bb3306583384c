-- ===== src/Db/Load.antt =====
-- The permission table of core/src/db.rs as a log of grants, and what `load_peer_permissions` reads
-- from it.
use puppypeer.Prelude.{
  ◌<◌, ◌≡◌, refl, ◌≢◌, Bool, ◌&&◌, ◌==◌, Option, List, [], ◌∷◌, ◌++◌, map, retain, All, All-retain,
  Distinct, retain-retain, arith, retain-map, retain-ext, text_eq, text_eq_iff, Bool-cases, inl,
  inr, sym, ◌∙◌, ap, ok, if◌then◌else◌, ==_iff,
}
use mathlib.Core.List.{append-nil, append_assoc}
use puppypeer.Rule.{Rule, owner, folder, Permission, I64}
use puppypeer.FilePath.{to_string_lossy}
use puppypeer.State.{PeerId}
use puppypeer.Db.{
  PeerCodec, RoundTrips, Row, Table, Stored, row_of, read_row, add_permission, load_rows,
  load_peer_permissions,
}

-- What a row of the table stands for.
pub record Grant : Type 0 where
  pub src : PeerId
  pub target : PeerId
  pub permission : Permission

abbrev pub Log : Type 0
Log = List Grant

-- The flags of a folder rule are a `u8`, and its path is UTF-8, so that the table can hold it.
abbrev pub IsStorableRule : Rule → Type 0
IsStorableRule owner = Unit {0}
IsStorableRule (folder r) = (r.flags < 256) × (to_string_lossy r.path ≡ r.path)

abbrev pub IsStorable : Permission → Type 0
IsStorable p = IsStorableRule p.rule

abbrev pub grant_is : PeerId → PeerId → Grant → Bool
grant_is src target g = g.src == src && g.target == target

-- What the log grants.
abbrev pub granted_by : Log → PeerId → PeerId → List Permission
granted_by log src target = map (λ g. g.permission) (retain (grant_is src target) log)

-- The entry of a peer among those that were loaded.
unfoldable pub perms_of : PeerId → Stored → List Permission
perms_of q [] = []
perms_of q ((r, ps) ∷ rest) = if r == q then ps else perms_of q rest

pub perms_of-add :
    (q t : PeerId) (p : Permission) (st : Stored)
    → perms_of q (add_permission t p st)
      ≡ (if t == q then perms_of q st ++ p ∷ [] else perms_of q st)
unfolding perms_of add_permission
perms_of-add q t p [] = ground arith
perms_of-add q t p ((r, ps) ∷ rest) = ground (arith, perms_of-add q t p rest)

-- No peer has two entries.
abbrev pub OneEach : Stored → Type 0
OneEach st = Distinct (λ e. e.0) st

add-All :
    (k q : PeerId) (p : Permission) (st : Stored)
    → q ≢ k
    → All (λ e. e.0 ≢ k) st
    → All (λ e. e.0 ≢ k) (add_permission q p st)
unfolding add_permission
add-All k q p [] ne h = (ne, tt)
add-All k q p ((r, ps) ∷ rest) ne h = elim (Bool-cases (r == q)) [
  | inl e ↦ rw e h
  | inr e ↦ rw e (h.0, add-All k q p rest ne h.1)
]

add-OneEach :
    (q : PeerId) (p : Permission) (st : Stored) → OneEach st → OneEach (add_permission q p st)
unfolding add_permission
add-OneEach q p [] d = (tt, tt)
add-OneEach q p ((r, ps) ∷ rest) d = elim (Bool-cases (r == q)) [
  | inl e ↦ rw e d
  | inr e ↦ rw e (add-All r q p rest (ground arith) d.0, add-OneEach q p rest d.1)
]

group : Log → Stored → Stored
group [] st = st
group (g ∷ gs) st = group gs (add_permission g.target g.permission st)

group-OneEach : (gs : Log) (st : Stored) → OneEach st → OneEach (group gs st)
unfolding group
group-OneEach [] st d = d
group-OneEach (g ∷ gs) st d =
    group-OneEach gs (add_permission g.target g.permission st)
      (add-OneEach g.target g.permission st d)

perms_of-group :
    (q : PeerId) (gs : Log) (st : Stored)
    → perms_of q (group gs st)
      ≡ perms_of q st ++ map (λ g. g.permission) (retain (λ g. g.target == q) gs)
unfolding group
perms_of-group q [] st = sym (append-nil _)
perms_of-group q (g ∷ gs) st = elim (Bool-cases (g.target == q)) [
  | inl e ↦
      rw (perms_of-group q gs (add_permission g.target g.permission st), perms_of-add, e)
        (append_assoc (perms_of q st) (g.permission ∷ []) _)
  | inr e ↦ rw (perms_of-group q gs (add_permission g.target g.permission st), perms_of-add, e) refl
]

abbrev pub IsStorableLog : Log → Type 0
IsStorableLog log = All (λ g. IsStorable g.permission) log

module _ (codec : PeerCodec) where
  abbrev pub row : Grant → Row
  row g = row_of codec g.src g.target g.permission

  abbrev pub table_of : Log → Table
  table_of log = map row log

module _ (codec : PeerCodec) (reads_back : RoundTrips codec) where
  open codec use {to_bytes, from_bytes}

  to_bytes_injective : (a b : PeerId) → to_bytes a ≡ to_bytes b → a ≡ b
  to_bytes_injective a b h = ground (arith, reads_back a, reads_back b, ap from_bytes h)

  pub to_bytes-eq : (a b : PeerId) → text_eq (to_bytes a) (to_bytes b) ≡ (a == b)
  to_bytes-eq a b = elim (Bool-cases (a == b)) [
    | inl e ↦ rw e ((text_eq_iff _ _).1 (ap to_bytes ((==_iff a b).0 e)))
    | inr e ↦ ground (arith, text_eq_iff (to_bytes a) (to_bytes b), to_bytes_injective a b)
  ]

  read_row-columns :
      (src target : PeerId) (p : Permission)
      → IsStorable p
      → read_row codec (row_of codec src target p) ≡ ok (target, p)
  unfolding read_row
  read_row-columns src target p h = go p.rule p.expires_at h
    where
      go :
          (r : Rule) (e : Option I64)
          → IsStorableRule r
          → read_row codec (row_of codec src target (record { rule = r; expires_at = e }))
            ≡ ok (target, record { rule = r; expires_at = e })
      go owner e h = rw (reads_back target) refl
      go (folder r) e h = rw (reads_back target, h.1) (ground (arith, h.0))

  load_rows-table_of :
      (gs : Log) (st : Stored)
      → IsStorableLog gs
      → load_rows codec (table_of codec gs) st ≡ ok (group gs st)
  unfolding load_rows group
  load_rows-table_of [] st h = refl
  load_rows-table_of (g ∷ gs) st h =
      rw (read_row-columns g.src g.target g.permission h.0)
        (load_rows-table_of gs (add_permission g.target g.permission st) h.1)

  -- Reading the rows of one source from the table of a log.
  load-table_of :
      (log : Log) (src : PeerId)
      → IsStorableLog log
      → load_peer_permissions codec (table_of codec log) src
        ≡ ok (group (retain (λ g. g.src == src) log) [])
  unfolding load_peer_permissions
  load-table_of log src h =
      rw
        (
          retain-map _ (row codec) log,
          retain-ext _ (λ g. g.src == src) (λ g. to_bytes-eq g.src src) log,
        )
        (load_rows-table_of (retain (λ g. g.src == src) log) []
          (All-retain (λ g. IsStorable g.permission) (λ g. g.src == src) log h))

  pub load_peer_permissions_lem :
      (log : Log) (src : PeerId)
      → IsStorableLog log
      → (st : Stored) × (load_peer_permissions codec (table_of codec log) src ≡ ok st)
        × OneEach st
        × ((q : PeerId) → perms_of q st ≡ granted_by log src q)
  unfolding perms_of
  load_peer_permissions_lem log src h = (
    group (retain (λ g. g.src == src) log) [],
    load-table_of log src h,
    group-OneEach (retain (λ g. g.src == src) log) [] tt,
    λ q.
        perms_of-group q (retain (λ g. g.src == src) log) []
        ∙ ap (map (λ g. g.permission)) (retain-retain (λ g. g.target == q) (λ g. g.src == src) log),
  )
