-- ===== src/Storage/Restart.antt =====
-- What was saved is granted again after a restart: `save_changes` of core/src/state.rs and
-- `App::new` of core/src/app.rs over the permission table of core/src/db.rs.
use puppypeer.Prelude.{
  ◌≡◌, refl, false, ◌==◌, List, [], ◌∷◌, any, All, arith, Bool-cases, inl, inr, ◌∙◌, ok,
}
use puppypeer.Rule.{Permission}
use puppypeer.State.{State, PeerId, set_peer_permissions, permissions_granted_to_peer, default}
use puppypeer.State.Roster.{IsWellFormed, operate, operate-IsWellFormed, sets_permissions}
use puppypeer.Db.{PeerCodec, RoundTrips}
use puppypeer.Db.Load.{Log, IsStorable, IsStorableLog, granted_by, table_of}
use puppypeer.Db.Save.{saved, save_peer_permissions_lem}
use puppypeer.Storage.{
  current_permissions, PeerFaults, save_peers, save_noted, save_changes, set_and_save, start,
}
use puppypeer.Storage.Sync.{
  IsStorableState, InSync, save_log, current-granted, granted-save_log, save_log-IsStorableLog,
  set-IsStorableState, set-InSync,
}
use puppypeer.Storage.Restore.{start-granted}

module _ (codec : PeerCodec) (reads_back : RoundTrips codec) where
  save_peers-ok :
      (f : PeerFaults) (s : State) (ps : List PeerId) (log : Log)
      → (save_peers codec f s ps (table_of codec log)).0 ≡ ok tt
      → (save_peers codec f s ps (table_of codec log)).1 ≡ table_of codec (save_log s ps log)
  unfolding save_peers save_log
  save_peers-ok f s [] log h = refl
  save_peers-ok f s (p ∷ ps) log h = ground (
    arith,
    save_peer_permissions_lem codec reads_back (f p) log s.me p (current_permissions s p),
    save_peers-ok f s ps (saved log s.me p (current_permissions s p)),
  )

  save_noted-InSync :
      (f : PeerFaults) (s : State) (ds : List PeerId) (log : Log)
      → IsWellFormed s
      → IsStorableState s
      → IsStorableLog log
      → ((q : PeerId)
          → any (λ p. p == q) ds ≡ false
          → granted_by log s.me q ≡ permissions_granted_to_peer s q)
      → let (r, s', t') = save_noted codec f s ds (table_of codec log) in
        r ≡ ok tt
        → (log' : Log) × (t' ≡ table_of codec log')
          × IsStorableLog log'
          × ((q : PeerId) → granted_by log' s.me q ≡ permissions_granted_to_peer s q)
  unfolding save_noted
  save_noted-InSync f s [] log w b bl clean h = (log, refl, bl, λ q. clean q refl)
  save_noted-InSync f s (p ∷ ps) log w b bl clean h = (
    save_log s (p ∷ ps) log,
    save_peers-ok f s (p ∷ ps) log h,
    save_log-IsStorableLog s (p ∷ ps) log b bl,
    λ q. elim (Bool-cases (any (λ x. x == q) (p ∷ ps))) [
      | inl e ↦ rw (granted-save_log s (p ∷ ps) log q, e) (current-granted s q w)
      | inr e ↦ rw (granted-save_log s (p ∷ ps) log q, e) (clean q e)
    ],
  )

  -- After `save_changes` has reported success, the table stands for a log that grants every peer
  -- what the state grants it.
  save_changes-InSync :
      (f : PeerFaults) (s : State) (log : Log)
      → IsWellFormed s
      → IsStorableState s
      → InSync s log
      → (save_changes codec f s (table_of codec log)).0 ≡ ok tt
      → (log' : Log) × ((save_changes codec f s (table_of codec log)).2 ≡ table_of codec log')
        × IsStorableLog log'
        × ((q : PeerId) → granted_by log' s.me q ≡ permissions_granted_to_peer s q)
  unfolding save_changes
  save_changes-InSync f s log w b i h =
      save_noted-InSync f s s.dirty_permission_targets log w b i.bytes i.clean h

  -- A node whose table is in step with its state sets the permissions of a peer, the flags of folders
  -- being `u8` and their paths UTF-8, and the save reports success: then a new node that starts under the same id from the table that was left
  -- grants every peer what the old one grants it after the change.
  pub restart_lem :
      (f : PeerFaults) (s : State) (log : Log) (p : PeerId) (ps : List Permission)
      → IsWellFormed s
      → IsStorableState s
      → InSync s log
      → All IsStorable ps
      → (set_and_save codec f s (table_of codec log) p ps).0 ≡ ok tt
      → (fresh q : PeerId)
      → permissions_granted_to_peer
          (start codec (default fresh) s.me (set_and_save codec f s (table_of codec log) p ps).2)
          q
        ≡ permissions_granted_to_peer (set_peer_permissions s p ps) q
  unfolding set_and_save
  restart_lem f s log p ps w b i hp h fresh q =
      let (log', e, bl, g) =
        save_changes-InSync f (set_peer_permissions s p ps) log
          (unfold operate in operate-IsWellFormed (sets_permissions p ps) w)
          (set-IsStorableState s p ps hp b) (set-InSync s log p ps i) h in
      rw e (
        start-granted codec reads_back (default fresh) s.me log' q refl bl
        ∙ unfold set_peer_permissions in (g q))
