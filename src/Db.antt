-- ===== src/Db.antt =====
-- core/src/db.rs, the permission table: `save_peer_permissions`, `load_peer_permissions`, and
-- `State::save_changes` of core/src/state.rs, which writes the noted peers through them.
-- The table is the list of its rows in the order of their ids: an `autoincrement` id is the
-- greatest so far, so an INSERT appends. SQLite itself is not modelled: each statement may fail,
-- as `Faults` says, and a transaction that is not committed changes nothing.
pub mod Load
pub mod Save
use puppypeer.Prelude.{
  ℕ, ◌-◌, ◌%◌, String, Bool, true, false, not, ◌&&◌, ◌==◌, Option, none, some, List, [], ◌∷◌, ◌++◌,
  map, length, retain, find, ◌≡◌, Text, text_eq, Result, ok, err, ◌>>=◌, if◌then◌else◌,
}
use puppypeer.FilePath.{to_string_lossy}
use puppypeer.Rule.{
  Rule, owner, folder, FolderRule, I64, positive, negative, Permission, with_expiration,
}
use puppypeer.State.{State, PeerId, Relationship, set_peer_permissions_from_storage, grants}

abbrev pub Bytes : Type 0
Bytes = List ℕ

-- `PeerId::to_bytes` and `PeerId::from_bytes` of libp2p: the bytes of an id read back as that id.
pub record PeerCodec : Type 0 where
  pub to_bytes : PeerId → Bytes
  pub from_bytes : Bytes → Result PeerId

abbrev pub RoundTrips : PeerCodec → Type 0
RoundTrips codec = (p : PeerId) → codec.from_bytes (codec.to_bytes p) ≡ ok p

-- A row of `peer_permissions`, less its id.
pub record Row : Type 0 where
  pub src_peer : Bytes
  pub target_peer : Bytes
  pub rule_type : I64
  pub path : Option Text
  pub flags : Option I64
  pub expires_at : Option I64

abbrev pub Table : Type 0
Table = List Row

abbrev pub rule_type_owner : I64
rule_type_owner = positive 0

abbrev pub rule_type_folder : I64
rule_type_folder = positive 1

-- The error of each statement of `save_peer_permissions`, if it fails; `insert n` is that of the
-- insertion with `n` more to come.
pub record Faults : Type 0 where
  pub begin : Option String
  pub delete : Option String
  pub insert : ℕ → Option String
  pub commit : Option String

abbrev pub no_faults : Faults
no_faults = record { begin = none; delete = none; insert = λ n. none; commit = none }

abbrev pub check : Option String → Result (Unit {0})
check none = ok tt
check (some e) = err e

-- The type, path and flags that a rule is stored by.
abbrev pub rule_columns : Rule → I64 × Option Text × Option I64
rule_columns owner = (rule_type_owner, none, none)
rule_columns (folder r) = (rule_type_folder, some (to_string_lossy r.path), some (positive r.flags))

-- The table stays as it was unless the transaction is committed.
pub committed : Table → Result Table → Result (Unit {0}) × Table
committed t (ok t') = (ok tt, t')
committed t (err e) = (err e, t)

-- `flags as u8` of an `i64`.
abbrev pub as_u8 : I64 → ℕ
as_u8 (positive n) = n % 256
as_u8 (negative n) = 255 - n % 256

abbrev pub ok_or {ℓ} : {A : Type ℓ} → Option A → String → Result A
ok_or none e = err e
ok_or (some a) e = ok a

abbrev pub rule_of : Row → Result Rule
rule_of r = elim r.rule_type [
  | positive n ↦
      if n == 0
      then ok owner
      else if n == 1
      then (do
        path ← ok_or r.path "missing folder path for permission"
        flags ← ok_or r.flags "missing folder flags for permission"
        ok (folder (record { path = path; flags = as_u8 flags })))
      else err "unsupported rule type"
  | negative n ↦ err "unsupported rule type"
]

abbrev pub Stored : Type 0
Stored = List (PeerId × List Permission)

-- The permission is added to the entry of its peer, or makes a new one at the end.
pub add_permission : PeerId → Permission → Stored → Stored
add_permission q p [] = (q, p ∷ []) ∷ []
add_permission q p ((r, ps) ∷ rest) =
    if r == q then (r, ps ++ p ∷ []) ∷ rest else (r, ps) ∷ add_permission q p rest

module _ (codec : PeerCodec) where
  open codec use {to_bytes, from_bytes}

  abbrev pub row_of : PeerId → PeerId → Permission → Row
  row_of src target p = record {
    src_peer = to_bytes src;
    target_peer = to_bytes target;
    rule_type = (rule_columns p.rule).0;
    path = (rule_columns p.rule).1;
    flags = (rule_columns p.rule).2;
    expires_at = p.expires_at;
  }

  pub insert_all : Faults → PeerId → PeerId → List Permission → Table → Result Table
  insert_all f src target [] t = ok t
  insert_all f src target (p ∷ ps) t = check (f.insert (length ps)) >>= λ _.
      insert_all f src target ps (t ++ row_of src target p ∷ [])

  abbrev pub is_between : PeerId → PeerId → Row → Bool
  is_between src target r =
      text_eq r.src_peer (to_bytes src) && text_eq r.target_peer (to_bytes target)

  pub transaction : Faults → PeerId → PeerId → List Permission → Table → Result Table
  transaction f src target ps t = do
    _ ← check f.begin
    _ ← check f.delete
    t' ← insert_all f src target ps (retain (λ r. not (is_between src target r)) t)
    _ ← check f.commit
    ok t'

  unfoldable pub save_peer_permissions :
      Faults → Table → PeerId → PeerId → List Permission → Result (Unit {0}) × Table
  unfolding transaction committed insert_all
  save_peer_permissions f t src target ps = committed t (transaction f src target ps t)

  unfoldable pub read_row : Row → Result (PeerId × Permission)
  read_row r = do
    target ← from_bytes r.target_peer
    rule ← rule_of r
    ok (target, with_expiration rule r.expires_at)

  pub load_rows : Table → Stored → Result Stored
  load_rows [] results = ok results
  load_rows (r ∷ rs) results =
      read_row r >>= λ entry. load_rows rs (add_permission entry.0 entry.1 results)

  unfoldable pub load_peer_permissions : Table → PeerId → Result Stored
  unfolding load_rows add_permission
  load_peer_permissions t src = load_rows (retain (λ r. text_eq r.src_peer (to_bytes src)) t) []
