-- ===== src/Storage/Restore.antt =====
-- The permissions that a starting node takes from the table: the loop of `App::new` in
-- core/src/app.rs over what `load_peer_permissions` of core/src/db.rs returns.
use puppypeer.Prelude.{
  ◌≡◌, refl, ◌≢◌, Bool, false, ◌==◌, List, [], ◌∷◌, retain, any, flat_map, All→any_false, arith,
  Bool-cases, inl, inr, ap, if◌then◌else◌,
}
use puppypeer.Rule.{Permission}
use puppypeer.State.{
  State, PeerId, grants, set_peer_permissions, set_peer_permissions_from_storage,
  permissions_granted_to_peer,
}
use puppypeer.State.Grants.{set_peer_permissions_lem}
use puppypeer.Db.{PeerCodec, RoundTrips, Stored}
use puppypeer.Db.Load.{
  Log, IsStorableLog, OneEach, granted_by, table_of, perms_of, load_peer_permissions_lem,
}
use puppypeer.Storage.{restore_all, start}

-- The two setters differ in what they note for saving alone.
from_storage-granted :
    (s : State) (p q : PeerId) (ps : List Permission)
    → permissions_granted_to_peer (set_peer_permissions_from_storage s p ps) q
      ≡ (if p == q then ps else permissions_granted_to_peer s q)
unfolding set_peer_permissions_from_storage set_peer_permissions permissions_granted_to_peer
from_storage-granted s p q ps = set_peer_permissions_lem s p q ps

listed : PeerId → Stored → Bool
listed q st = any (λ e. e.0 == q) st

restore_all-granted :
    (s : State) (st : Stored) (q : PeerId)
    → OneEach st
    → permissions_granted_to_peer (restore_all s st) q
      ≡ (if listed q st then perms_of q st else permissions_granted_to_peer s q)
unfolding restore_all perms_of listed
restore_all-granted s [] q d = refl
restore_all-granted s ((t, ps) ∷ rest) q d = elim (Bool-cases (t == q)) [
  | inl e ↦
      let gone : listed q rest ≡ false =
        All→any_false (λ e. e.0 == q) (λ e. e.0 ≢ t) (λ x h. ground arith) rest d.0 in
      rw
        (
          restore_all-granted (set_peer_permissions_from_storage s t ps) rest q d.1,
          gone,
          from_storage-granted s t q ps,
          e,
        )
        refl
  | inr e ↦
      rw
        (
          restore_all-granted (set_peer_permissions_from_storage s t ps) rest q d.1,
          from_storage-granted s t q ps,
          e,
        )
        refl
]

perms_of-unlisted : (q : PeerId) (st : Stored) → listed q st ≡ false → perms_of q st ≡ []
unfolding perms_of listed
perms_of-unlisted q [] h = refl
perms_of-unlisted q ((t, ps) ∷ rest) h = ground (arith, perms_of-unlisted q rest)

new-granted : (s : State) (q : PeerId) → s.relationships ≡ [] → permissions_granted_to_peer s q ≡ []
unfolding permissions_granted_to_peer
new-granted s q e = ap (λ rs. flat_map (λ r. r.rules) (retain (grants s.me q) rs)) e

module _ (codec : PeerCodec) (reads_back : RoundTrips codec) where
  pub start-granted :
      (s : State) (me : PeerId) (log : Log) (q : PeerId)
      → s.relationships ≡ []
      → IsStorableLog log
      → permissions_granted_to_peer (start codec s me (table_of codec log)) q ≡ granted_by log me q
  unfolding start
  start-granted s me log q new h =
      let (st, loads, one, perms) = load_peer_permissions_lem codec reads_back log me h in
      rw (loads, restore_all-granted (record s { me = me }) st q one, ← perms q)
        (elim (Bool-cases (listed q st)) [
          | inl e ↦ rw e refl
          | inr e ↦ rw (e, perms_of-unlisted q st e) (new-granted (record s { me = me }) q new)
        ])
