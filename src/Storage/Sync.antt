-- ===== src/Storage/Sync.antt =====
-- The table in step with the state: what `save_changes` of core/src/state.rs writes, as a log.
use puppypeer.Prelude.{
  ◌≡◌, refl, ◌≢◌, false, ◌==◌, List, [], ◌∷◌, retain, find, any, flat_map, All, Distinct,
  All-append, All-retain, All→retain_nil, arith, Bool-cases, inl, inr, sym, ◌∙◌, ap, if◌then◌else◌,
}
use mathlib.Core.List.{append-nil}
use puppypeer.Rule.{Permission}
use puppypeer.State.{
  State, PeerId, Relationship, grants, unrelated, push_relationship, set_peer_permissions,
  permissions_granted_to_peer, insert,
}
use puppypeer.State.Grants.{set_peer_permissions_lem}
use puppypeer.State.Roster.{IsWellFormed}
use puppypeer.Db.Load.{Log, IsStorable, IsStorableLog, granted_by}
use puppypeer.Db.Save.{saved, granted-saved, IsStorableLog-saved}
use puppypeer.Storage.{rules_or_default, current_permissions}

-- The rules of the one relationship with a peer are what is granted to it.
current-granted-in :
    (me q : PeerId) (rs : List Relationship)
    → Distinct (λ r. r.target) rs
    → rules_or_default (find (grants me q) rs) ≡ flat_map (λ r. r.rules) (retain (grants me q) rs)
current-granted-in me q [] d = refl
current-granted-in me q (r ∷ rs) d = elim (Bool-cases (grants me q r)) [
  | inl e ↦
      let gone : retain (grants me q) rs ≡ [] =
        All→retain_nil (grants me q) (λ x. x.target ≢ r.target) (λ x h. ground arith) rs d.0 in
      rw (e, gone) (sym (append-nil r.rules))
  | inr e ↦ rw e (current-granted-in me q rs d.1)
]

pub current-granted :
    (s : State) (q : PeerId)
    → IsWellFormed s
    → current_permissions s q ≡ permissions_granted_to_peer s q
unfolding current_permissions permissions_granted_to_peer
current-granted s q w = current-granted-in s.me q s.relationships w.targets

-- The rules of the state are storable: the flags are `u8` and the paths UTF-8.
abbrev pub IsStorableState : State → Type 0
IsStorableState s = All (λ r. All IsStorable r.rules) s.relationships

pub current-IsStorable :
    (s : State) (q : PeerId) → IsStorableState s → All IsStorable (current_permissions s q)
unfolding current_permissions
current-IsStorable s q h = go s.relationships h
  where
    go :
        (rs : List Relationship)
        → All (λ r. All IsStorable r.rules) rs
        → All IsStorable (rules_or_default (find (grants s.me q) rs))
    go [] h = tt
    go (r ∷ rs) h = elim (Bool-cases (grants s.me q r)) [
      | inl e ↦ rw e h.0
      | inr e ↦ rw e (go rs h.1)
    ]

-- The log holds, for every peer that is not noted as dirty, what the state grants to it.
pub record InSync (s : State) (log : Log) : Type 0 where
  pub bytes : IsStorableLog log
  pub clean :
      (q : PeerId)
      → any (λ p. p == q) s.dirty_permission_targets ≡ false
      → granted_by log s.me q ≡ permissions_granted_to_peer s q

-- The log after the peers were saved in turn.
unfoldable pub save_log : State → List PeerId → Log → Log
save_log s [] log = log
save_log s (p ∷ ps) log = save_log s ps (saved log s.me p (current_permissions s p))

pub granted-save_log :
    (s : State) (ps : List PeerId) (log : Log) (q : PeerId)
    → granted_by (save_log s ps log) s.me q
      ≡ (if any (λ p. p == q) ps then current_permissions s q else granted_by log s.me q)
unfolding save_log
granted-save_log s [] log q = refl
granted-save_log s (p ∷ ps) log q = ground (
  arith,
  granted-save_log s ps (saved log s.me p (current_permissions s p)) q,
  granted-saved log s.me p s.me q (current_permissions s p),
)

pub save_log-IsStorableLog :
    (s : State) (ps : List PeerId) (log : Log)
    → IsStorableState s
    → IsStorableLog log
    → IsStorableLog (save_log s ps log)
unfolding save_log
save_log-IsStorableLog s [] log hs h = h
save_log-IsStorableLog s (p ∷ ps) log hs h =
    save_log-IsStorableLog s ps (saved log s.me p (current_permissions s p)) hs
      (IsStorableLog-saved log s.me p (current_permissions s p) h (current-IsStorable s p hs))

push-IsStorable :
    (me p : PeerId) (ps : List Permission) (rs : List Relationship)
    → All IsStorable ps
    → All (λ r. All IsStorable r.rules) rs
    → All (λ r. All IsStorable r.rules) (push_relationship me p ps rs)
unfolding push_relationship
push-IsStorable me p [] rs hp h = h
push-IsStorable me p (x ∷ xs) rs hp h = All-append (λ r. All IsStorable r.rules) rs _ h (hp, tt)

pub set-IsStorableState :
    (s : State) (p : PeerId) (ps : List Permission)
    → All IsStorable ps
    → IsStorableState s
    → IsStorableState (set_peer_permissions s p ps)
unfolding set_peer_permissions
set-IsStorableState s p ps hp h =
    push-IsStorable s.me p ps _ hp
      (All-retain (λ r. All IsStorable r.rules) (unrelated s.me p) s.relationships h)

any-insert :
    (p q : PeerId) (ps : List PeerId)
    → any (λ x. x == q) (insert p ps) ≡ false
    → (q ≢ p) × (any (λ x. x == q) ps ≡ false)
unfolding insert
any-insert p q ps h = elim (Bool-cases (any (λ x. x == p) ps)) [
  | inl e ↦
      let rest : any (λ x. x == q) ps ≡ false = rw (e, insert) at h in
      (λ same. ground (arith, ap (λ y. any (λ x. x == y) ps) same), rest)
  | inr e ↦
      let rest : any (λ x. x == q) (p ∷ ps) ≡ false = rw (e, insert) at h in
      (ground arith, ground arith)
]

-- Setting a peer's permissions notes the peer, so the log stays in step for the others.
pub set-InSync :
    (s : State) (log : Log) (p : PeerId) (ps : List Permission)
    → InSync s log
    → InSync (set_peer_permissions s p ps) log
unfolding set_peer_permissions
set-InSync s log p ps i = record {
  bytes = i.bytes;
  clean = λ q h.
      let (ne, old) = any-insert p q s.dirty_permission_targets h in
      i.clean q old ∙ sym (set_peer_permissions_lem s p q ps ∙ ground arith);
}
