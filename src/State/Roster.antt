-- ===== src/State/Roster.antt =====
-- The tables of core/src/state.rs: discovered peers, users, and the invariant that every operation
-- of the state keeps.
use puppypeer.Prelude.{
  String, ◌≡◌, ◌≢◌, Bool, false, ◌==◌, List, [], ◌∷◌, ◌++◌, any, arith, All, Distinct,
  Distinct-retain, Distinct-snoc, any_false→All, eq_iff, str_eq, Bool-cases, Result, ok, err, inl,
  inr,
}
use puppypeer.Rule.{Permission, FolderRule}
use puppypeer.State.{
  State, PeerId, Multiaddr, AuthMethod, insert, authenticate, add_shared_folder,
  set_peer_permissions, set_peer_permissions_from_storage, peer_discovered, peer_expired,
  create_user,
}
use puppypeer.State.Grants.{IsOwn, IsOwn-set, targets-set}

-- The relationships are the node's own and not empty, one to a peer; no peer is discovered twice, no name is taken
-- twice, and no peer is noted twice for saving.
pub record IsWellFormed (s : State) : Type 0 where
  pub own : All (IsOwn s.me) s.relationships
  pub targets : Distinct (λ r. r.target) s.relationships
  pub discovered : Distinct (λ p. p.peer_id) s.discovered_peers
  pub names : Distinct (λ u. u.name) s.users
  pub dirty : Distinct (λ p. p) s.dirty_permission_targets

pub insert-Distinct :
    (p : PeerId) (ps : List PeerId) → Distinct (λ q. q) ps → Distinct (λ q. q) (insert p ps)
unfolding insert
insert-Distinct p ps d = elim (Bool-cases (any (λ q. q == p) ps)) [
  | inl e ↦ rw e d
  | inr e ↦ rw e (any_false→All (λ q. q == p) (λ q. q ≢ p) (λ q h. ground arith) ps e, d)
]

peer_discovered-IsWellFormed :
    {s : State} (p : PeerId) (a : Multiaddr) → IsWellFormed s → IsWellFormed (peer_discovered s p a)
unfolding peer_discovered
peer_discovered-IsWellFormed {s} p a w =
    elim (Bool-cases (any (λ q. q.peer_id == p) s.discovered_peers)) [
      | inl e ↦ rw e w
      | inr e ↦ rw e (record {
        own = w.own;
        targets = w.targets;
        discovered =
            Distinct-snoc (λ q. q.peer_id) s.discovered_peers
              (record { peer_id = p; multiaddr = a })
              (any_false→All (λ q. q.peer_id == p) (λ q. q.peer_id ≢ p) (λ q h. ground arith) _ e)
              w.discovered;
        names = w.names;
        dirty = w.dirty;
      })
    ]

abbrev taken : State → String → Bool
taken s name = any (λ u. str_eq u.name name) s.users

added-IsWellFormed :
    {s : State} (name passw : String)
    → taken s name ≡ false
    → IsWellFormed s
    → IsWellFormed (record s { users = s.users ++ record { name = name; passw = passw } ∷ [] })
added-IsWellFormed {s} name passw e w = record {
  own = w.own;
  targets = w.targets;
  discovered = w.discovered;
  names =
      Distinct-snoc (λ u. u.name) s.users (record { name = name; passw = passw })
        (any_false→All (λ u. str_eq u.name name) (λ u. u.name ≢ name)
          (λ u h. ground (arith, eq_iff u.name name)) _ e)
        w.names;
  dirty = w.dirty;
}

-- The methods that change the state, but for the saving of permissions, which Storage has.
pub data Operation : Type 0 where
  authenticates : PeerId → AuthMethod → Operation
  adds_shared_folder : FolderRule → Operation
  sets_permissions sets_permissions_from_storage : PeerId → List Permission → Operation
  discovers expires : PeerId → Multiaddr → Operation
  creates_user : String → String → Operation

-- A call that fails leaves the state as it was.
abbrev pub after : State → Result State → State
after s (ok t) = t
after s (err e) = s

unfoldable pub operate : State → Operation → State
operate s (authenticates p m) = authenticate s p m
operate s (adds_shared_folder r) = add_shared_folder s r
operate s (sets_permissions p ps) = set_peer_permissions s p ps
operate s (sets_permissions_from_storage p ps) = set_peer_permissions_from_storage s p ps
operate s (discovers p a) = peer_discovered s p a
operate s (expires p a) = peer_expired s p a
operate s (creates_user name passw) = after s (create_user s name passw)

-- Every operation of the state, whether it succeeds or fails, keeps the invariant.
pub operate-IsWellFormed : {s : State} (o : Operation) → IsWellFormed s → IsWellFormed (operate s o)
unfolding operate
operate-IsWellFormed (authenticates p m) w = unfold authenticate in w
operate-IsWellFormed (adds_shared_folder r) w =
    unfold add_shared_folder in
    record {
      own = w.own;
      targets = w.targets;
      discovered = w.discovered;
      names = w.names;
      dirty = w.dirty;
    }
operate-IsWellFormed {s} (sets_permissions p ps) w =
    unfold set_peer_permissions in
    record {
      own = IsOwn-set s p ps w.own;
      targets = targets-set s p ps w.own w.targets;
      discovered = w.discovered;
      names = w.names;
      dirty = insert-Distinct p _ w.dirty;
    }
operate-IsWellFormed {s} (sets_permissions_from_storage p ps) w =
    unfold set_peer_permissions_from_storage in
    record {
      own = IsOwn-set s p ps w.own;
      targets = targets-set s p ps w.own w.targets;
      discovered = w.discovered;
      names = w.names;
      dirty = w.dirty;
    }
operate-IsWellFormed {s} (discovers p a) w = peer_discovered-IsWellFormed p a w
operate-IsWellFormed {s} (expires p a) w =
    unfold peer_expired in
    record {
      own = w.own;
      targets = w.targets;
      discovered = Distinct-retain _ _ _ w.discovered;
      names = w.names;
      dirty = w.dirty;
    }
operate-IsWellFormed {s} (creates_user name passw) w =
    unfold create_user in
    elim (Bool-cases (taken s name)) [
      | inl e ↦ rw e w
      | inr e ↦ rw e (added-IsWellFormed name passw e w)
    ]
