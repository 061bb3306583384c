-- ===== src/State/Grants.antt =====
-- Setting a peer's permissions, in core/src/state.rs: what is granted afterwards, to whom, and what
-- is not touched.
use puppypeer.Prelude.{
  ℕ, ◌≡◌, refl, ◌≢◌, false, ◌&&◌, ◌==◌, List, [], ◌∷◌, ◌++◌, any, retain, flat_map, arith,
  retain-append, flat_map-append, All, All-append, All-retain, ◌∙◌, Distinct, Distinct-retain,
  Distinct-snoc, Bool-cases, ==_iff, inl, inr, if◌then◌else◌,
}
use mathlib.Core.List.{append-nil}
use puppypeer.FilePath.{FilePath}
use puppypeer.Rule.{Permission}
use puppypeer.State.{
  State, PeerId, Relationship, grants, unrelated, involves, permits, folder_permits,
  push_relationship, permissions_granted_to_peer, set_peer_permissions, has_fs_access,
}

abbrev granted_in : PeerId → PeerId → List Relationship → List Permission
granted_in me q rs = flat_map (λ r. r.rules) (retain (grants me q) rs)

-- Dropping the relationships between `me` and `p` leaves nothing granted to `p`.
granted-unrelated :
    (me p : PeerId) (rs : List Relationship) → granted_in me p (retain (unrelated me p) rs) ≡ []
granted-unrelated me p [] = refl
granted-unrelated me p (r ∷ rs) = ground (arith, granted-unrelated me p rs)

granted-unrelated_ne :
    (me p q : PeerId) (rs : List Relationship)
    → q ≢ p
    → granted_in me q (retain (unrelated me p) rs) ≡ granted_in me q rs
granted-unrelated_ne me p q [] other = refl
granted-unrelated_ne me p q (r ∷ rs) other = ground (arith, granted-unrelated_ne me p q rs other)

granted-append :
    (me q : PeerId) (rs ts : List Relationship)
    → granted_in me q (rs ++ ts) ≡ granted_in me q rs ++ granted_in me q ts
granted-append me q rs ts = simp (retain-append, flat_map-append)

granted-push :
    (me p : PeerId) (ps : List Permission) (rs : List Relationship)
    → granted_in me p (push_relationship me p ps rs) ≡ granted_in me p rs ++ ps
unfolding push_relationship
granted-push me p [] rs = simp append-nil
granted-push me p (x ∷ xs) rs = simp granted-append (ground (arith, append-nil (x ∷ xs)))

granted-push_ne :
    (me p q : PeerId) (ps : List Permission) (rs : List Relationship)
    → q ≢ p
    → granted_in me q (push_relationship me p ps rs) ≡ granted_in me q rs
unfolding push_relationship
granted-push_ne me p q [] rs other = refl
granted-push_ne me p q (x ∷ xs) rs other =
    simp granted-append (ground (arith, append-nil (granted_in me q rs)))

-- After `set_peer_permissions` exactly the given permissions are granted to the peer, in their
-- order, and what is granted to every other peer is as before.
pub set_peer_permissions_lem :
    (s : State) (p q : PeerId) (ps : List Permission)
    → permissions_granted_to_peer (set_peer_permissions s p ps) q
      ≡ (if p == q then ps else permissions_granted_to_peer s q)
unfolding set_peer_permissions permissions_granted_to_peer
set_peer_permissions_lem s p q ps = elim (Bool-cases (p == q)) [
  | inl e ↦
      let same : p ≡ q = (==_iff p q).0 e in
      rw e (rw (← same) (simp (granted-push, granted-unrelated)))
  | inr e ↦ rw e (
      granted-push_ne s.me p q ps _ (ground arith)
      ∙ granted-unrelated_ne s.me p q s.relationships (ground arith))
]

-- Every relationship is one of this node with a peer, and holds a rule.
abbrev pub IsOwn : PeerId → Relationship → Type 0
IsOwn me r = (r.src ≡ me) × (r.rules ≢ [])

IsOwn-push :
    (me p : PeerId) (ps : List Permission) (rs : List Relationship)
    → All (IsOwn me) rs
    → All (IsOwn me) (push_relationship me p ps rs)
unfolding push_relationship
IsOwn-push me p [] rs h = h
IsOwn-push me p (x ∷ xs) rs h = All-append (IsOwn me) rs _ h ((refl, λ e. cc), tt)

pub IsOwn-set :
    (s : State) (p : PeerId) (ps : List Permission)
    → All (IsOwn s.me) s.relationships
    → All (IsOwn s.me) (push_relationship s.me p ps (retain (unrelated s.me p) s.relationships))
IsOwn-set s p ps h =
    IsOwn-push s.me p ps _ (All-retain (IsOwn s.me) (unrelated s.me p) s.relationships h)

unrelated-target :
    (me p : PeerId) (rs : List Relationship)
    → All (IsOwn me) rs
    → All (λ r. r.target ≢ p) (retain (unrelated me p) rs)
unrelated-target me p [] h = tt
unrelated-target me p (r ∷ rs) h = elim (Bool-cases (r.target == p)) [
  | inl e ↦
      let gone : unrelated me p r ≡ false = ground (arith, h.0.0) in
      rw gone (unrelated-target me p rs h.1)
  | inr e ↦ elim (Bool-cases (unrelated me p r)) [
    | inl k ↦ rw k (ground arith, unrelated-target me p rs h.1)
    | inr k ↦ rw k (unrelated-target me p rs h.1)
  ]
]

targets-push :
    (me p : PeerId) (ps : List Permission) (rs : List Relationship)
    → All (λ r. r.target ≢ p) rs
    → Distinct (λ r. r.target) rs
    → Distinct (λ r. r.target) (push_relationship me p ps rs)
unfolding push_relationship
targets-push me p [] rs h d = d
targets-push me p (x ∷ xs) rs h d =
    Distinct-snoc (λ r. r.target) rs (record { src = me; target = p; rules = x ∷ xs }) h d

pub targets-set :
    (s : State) (p : PeerId) (ps : List Permission)
    → All (IsOwn s.me) s.relationships
    → Distinct (λ r. r.target) s.relationships
    → Distinct
        (λ r. r.target)
        (push_relationship s.me p ps (retain (unrelated s.me p) s.relationships))
targets-set s p ps own d =
    targets-push s.me p ps _ (unrelated-target s.me p s.relationships own)
      (Distinct-retain (λ r. r.target) (unrelated s.me p) s.relationships d)

any-unrelated :
    (me p : PeerId) (path : FilePath) (access : ℕ) (rs : List Relationship)
    → p ≢ me
    → All (IsOwn me) rs
    → any (λ r. involves p r && any (permits path access) r.rules) (retain (unrelated me p) rs)
      ≡ false
any-unrelated me p path access [] other h = refl
any-unrelated me p path access (r ∷ rs) other h =
    ground (arith, any-unrelated me p path access rs other h.1, h.0.0)

-- Where every relationship is the node's own, a peer whose permissions are set to none can reach
-- afterwards what the shared folders permit, and nothing else.
pub revoke_lem :
    (s : State) (p : PeerId) (path : FilePath) (access : ℕ)
    → All (IsOwn s.me) s.relationships
    → p ≢ s.me
    → has_fs_access (set_peer_permissions s p []) p path access
      ≡ any (folder_permits path access) s.shared_folders
unfolding has_fs_access set_peer_permissions
revoke_lem s p path access own other =
    ground (arith, any-unrelated s.me p path access s.relationships other own)
