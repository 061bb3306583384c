-- ===== src/Storage/Failure.antt =====
-- `save_changes` of core/src/state.rs when a save fails: the set of noted peers is drained all the
-- same.
use puppypeer.Prelude.{String, ◌≡◌, refl, ap, ◌∙◌, some, List, [], ◌∷◌, ok, err, arith}
use puppypeer.State.{State, PeerId}
use puppypeer.Db.{PeerCodec, Table, Faults, save_peer_permissions}
use puppypeer.Storage.{PeerFaults, save_peers, save_noted, save_changes, current_permissions}
use puppypeer.Rule.{Permission}

module _ (codec : PeerCodec) where
  begin_fails :
      (f : Faults) (t : Table) (src target : PeerId) (qs : List Permission) (e : String)
      → f.begin ≡ some e
      → save_peer_permissions codec f t src target qs ≡ (err e, t)
  unfolding save_peer_permissions
  begin_fails f t src target qs e b = ground arith

  noted_forgets :
      (f : PeerFaults) (s : State) (t : Table) (p : PeerId) (ps : List PeerId) (e : String)
      → (f p).begin ≡ some e
      → save_noted codec f s (p ∷ ps) t ≡ (err e, record s { dirty_permission_targets = [] }, t)
  unfolding save_noted save_peers
  noted_forgets f s t p ps e b =
      ground (arith, begin_fails (f p) t s.me p (current_permissions s p) e b)

  changes_fail :
      (f : PeerFaults) (s : State) (t : Table) (p : PeerId) (ps : List PeerId) (e : String)
      → s.dirty_permission_targets ≡ p ∷ ps
      → (f p).begin ≡ some e
      → save_changes codec f s t ≡ (err e, record s { dirty_permission_targets = [] }, t)
  unfolding save_changes
  changes_fail f s t p ps e d b =
      ap (λ ds. save_noted codec f s ds t) d ∙ noted_forgets f s t p ps e b

  nothing_to_save :
      (g : PeerFaults) (s : State) (t : Table)
      → save_changes codec g (record s { dirty_permission_targets = [] }) t
        ≡ (ok tt, record s { dirty_permission_targets = [] }, t)
  unfolding save_changes save_noted
  nothing_to_save g s t = refl

  -- Where the transaction for the first noted peer cannot begin, `save_changes` reports the error
  -- and writes nothing; yet a second call, whatever SQLite does then, reports success and writes
  -- nothing either: the changes of all the noted peers are forgotten.
  pub save_changes_forgets :
      (f g : PeerFaults) (s : State) (t : Table) (p : PeerId) (ps : List PeerId) (e : String)
      → s.dirty_permission_targets ≡ p ∷ ps
      → (f p).begin ≡ some e
      → let (r, s', t') = save_changes codec f s t in
        (r ≡ err e) × (t' ≡ t) × (save_changes codec g s' t' ≡ (ok tt, s', t))
  save_changes_forgets f g s t p ps e d b =
      rw (changes_fail f s t p ps e d b) (refl, refl, nothing_to_save g s t)
