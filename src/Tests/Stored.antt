-- ===== src/Tests/Stored.antt =====
-- Witnesses for Db.antt and Storage.antt.
use puppypeer.Prelude.{String, ◌≡◌, ◌⊎◌, refl, some, List, [], ◌∷◌, arith, ok, err}
use puppypeer.State.{State, default, permissions_granted_to_peer, set_peer_permissions}
use puppypeer.Db.{no_faults, save_peer_permissions}
use puppypeer.Db.Load.{table_of}
use puppypeer.Db.Save.{saved, save_peer_permissions_lem}
use puppypeer.State.Roster.{IsWellFormed, creates_user, discovers, sets_permissions}
use puppypeer.Dispatch.Reachable.{
  NodeOperation, of_state, saves_changes, connects, disconnects, run_operations,
  reachable-IsWellFormed,
}
use puppypeer.Storage.{PeerFaults, save_changes, set_and_save, start}
use puppypeer.Storage.Restart.{restart_lem}
use puppypeer.Storage.Failure.{save_changes_forgets}
use puppypeer.Tests.Fixtures.{
  home, home-IsWellFormed, home-IsStorableState, home_log, home-InSync, test_codec,
  test_codec-RoundTrips, box_permission,
}

save_peer_permissions_lem_example :
    let (r, t') =
      save_peer_permissions test_codec no_faults
        (table_of test_codec home_log)
        1
        2
        (box_permission ∷ []) in
    ((e : String) × (r ≡ err e) × (t' ≡ table_of test_codec home_log))
    ⊎ ((r ≡ ok tt) × (t' ≡ table_of test_codec (saved home_log 1 2 (box_permission ∷ []))))
save_peer_permissions_lem_example =
    save_peer_permissions_lem test_codec test_codec-RoundTrips no_faults home_log 1 2
      (box_permission ∷ [])

abbrev fine : PeerFaults
fine p = no_faults

saves :
    (set_and_save test_codec fine home (table_of test_codec home_log) 3 (box_permission ∷ [])).0
    ≡ ok tt
unfolding set_and_save save_changes set_peer_permissions save_peer_permissions
saves = refl

restart_lem_example :
    permissions_granted_to_peer
      (start test_codec
        (default 9)
        1
        (set_and_save test_codec fine home
          (table_of test_codec home_log)
          3
          (box_permission ∷ [])).2)
      3
    ≡ permissions_granted_to_peer (set_peer_permissions home 3 (box_permission ∷ [])) 3
restart_lem_example =
    restart_lem test_codec test_codec-RoundTrips fine home home_log 3 (box_permission ∷ [])
      home-IsWellFormed home-IsStorableState home-InSync ((omega arith, refl), tt) saves 9 3

abbrev locked : PeerFaults
locked p = record no_faults { begin = some "database is locked" }

abbrev noted : State
noted = record home { dirty_permission_targets = 2 ∷ [] }

save_changes_forgets_example :
    let (r, s', t') = save_changes test_codec locked noted [] in
    (r ≡ err "database is locked")
    × (t' ≡ [])
    × (save_changes test_codec fine s' t' ≡ (ok tt, s', []))
save_changes_forgets_example =
    save_changes_forgets test_codec locked fine noted [] 2 [] "database is locked" refl refl

-- A node that starts from a table, hears of a peer twice, grants it something and saves that.
abbrev busy_day : List NodeOperation
busy_day =
    of_state (discovers 2 7)
    ∷ of_state (discovers 2 8)
    ∷ connects 2 4
    ∷ of_state (creates_user "ann" "x")
    ∷ of_state (creates_user "ann" "y")
    ∷ of_state (sets_permissions 3 (box_permission ∷ []))
    ∷ saves_changes (λ p. no_faults) (table_of test_codec home_log)
    ∷ of_state (sets_permissions 3 [])
    ∷ disconnects 4
    ∷ []

reachable-IsWellFormed_example : IsWellFormed (
    run_operations test_codec
      (start test_codec (default 9) 1 (table_of test_codec home_log))
      busy_day)
reachable-IsWellFormed_example =
    reachable-IsWellFormed test_codec 9 1 (table_of test_codec home_log) busy_day
