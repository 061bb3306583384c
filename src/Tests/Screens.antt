-- ===== src/Tests/Screens.antt =====
-- Witnesses for Shell.antt.
use puppypeer.Prelude.{
  ◌≢◌, get_elem?, ◌≡◌, none, some, List, [], ◌∷◌, codes, arith, false, true, ℕ, ◌/◌, leb, ok, err,
  refl,
}
use puppypeer.Shell.Format.{Outside, decimal}
use puppypeer.Shell.App.{new_app, Key, char, esc, enter, up, down, key, Answers}
use puppypeer.Shell.Refresh.{Round, run_app}
use puppypeer.Shell.Sound.{Yields, IsSound}
use puppypeer.Shell.MenuSteps.{ReadsBack}
use puppypeer.Shell.Runs.{run_app-IsSound}
use puppypeer.Shell.Escape.{press_all, press_all_quits}
use puppypeer.Wire.{DirEntry, CpuInfo}
use puppypeer.State.{State}
use puppypeer.Shell.Peers.{Display, aggregate_peers}
use puppypeer.Shell.Rows.{row, status_of, IsKeyed}
use puppypeer.Shell.Actions.{PeerActionsState, peer_actions_state_for}
use puppypeer.Shell.Chosen.{peer_actions_state_for_lem}
use puppypeer.Shell.Aggregate.{status_for, IsInjective, aggregate_peers_lem}
use puppypeer.Tests.Fixtures.{home}
use puppypeer.Shell.{new_browser}
use puppypeer.Shell.Scroll.{BrowserOp, browse_all, IsBrowserShown, browser-IsShown}

abbrev an_entry : DirEntry
an_entry = record {
  name = codes "a";
  is_dir = false;
  extension = none;
  mime = none;
  size = 3;
  created_at = none;
  modified_at = none;
  accessed_at = none;
}

abbrev a_cpu : CpuInfo
a_cpu = record { name = "cpu0"; usage = 0; frequency_hz = 3000 }

abbrev strokes : List BrowserOp
strokes =
    BrowserOp.resize 2
    ∷ BrowserOp.down
    ∷ BrowserOp.up
    ∷ BrowserOp.up
    ∷ BrowserOp.open_dir (codes "/a") []
    ∷ []

browser-IsShown_example :
    IsBrowserShown (
      browse_all strokes
        (new_browser (codes "p") (codes "/") (an_entry ∷ an_entry ∷ an_entry ∷ [])))
browser-IsShown_example =
    browser-IsShown (codes "p") (codes "/") (an_entry ∷ an_entry ∷ an_entry ∷ []) strokes

abbrev plain : Display
plain = record { peer_text = λ p. p ∷ []; addr_text = λ a. a ∷ [] }

plain-IsInjective : IsInjective plain
plain-IsInjective p q e = ground arith

-- Node 1 is connected to peer 5.
abbrev online : State
online = record home { connections = record { peer_id = 5; connection_id = 0 } ∷ [] }

aggregate_peers_lem_example :
    IsKeyed (aggregate_peers plain online)
    × (status_of (row (5 ∷ []) (aggregate_peers plain online)) ≡ some (codes "connected"))
aggregate_peers_lem_example = aggregate_peers_lem plain plain-IsInjective online 5

shown : status_for plain online 5 ≢ none
shown e = ground arith

peer_actions_state_for_lem_example :
    (a : PeerActionsState) × (peer_actions_state_for plain (some online) (5 ∷ []) ≡ some a)
    × (a.menu.peer.id ≡ 5 ∷ [])
    × (get_elem? a.view.peers a.view.selected ≡ some a.menu.peer)
peer_actions_state_for_lem_example =
    peer_actions_state_for_lem plain plain-IsInjective online 5 shown

-- An outside world of exact numbers, where the text of a peer is one character.
abbrev plain_outside : Outside
plain_outside = record {
  display = plain;
  parse_peer = λ t. elim t [ [] ↦ err "empty" | p ∷ rest ↦ ok p ];
  F64 = ℕ;
  of_u64 = λ n. n;
  at_least = λ x n. leb n x;
  divided = λ x n. x / n;
  show = λ d x. decimal x;
  show_f32 = λ d x. decimal x;
  show_time = decimal;
}

reads_back : ReadsBack plain_outside
reads_back p = refl

abbrev answers_at : ℕ → Answers
answers_at now = record {
  now = now;
  snapshot = some online;
  list_dir = λ p t. ok (an_entry ∷ []);
  list_cpus = λ p. ok (a_cpu ∷ a_cpu ∷ []);
}

abbrev pressed : ℕ → Key → Round
pressed now k = record {
  answers = answers_at now;
  height = 12;
  has_room = true;
  event = some (key k);
}

-- The list of peers, a refresh, the actions on the first, its processors, and their refresh.
abbrev some_rounds : List Round
some_rounds =
    pressed 1 enter
    ∷ pressed 6000 down
    ∷ pressed 6200 enter
    ∷ pressed 6400 enter
    ∷ pressed 6600 down
    ∷ pressed 12000 up
    ∷ []

run_app-IsSound_example : Yields (IsSound plain) (run_app plain_outside some_rounds (new_app 0))
run_app-IsSound_example = run_app-IsSound plain_outside reads_back some_rounds 0

press_all_quits_example :
    Yields
      (λ b. b.should_quit ≡ true)
      (press_all plain_outside
        ((answers_at 1, esc)
          ∷ (answers_at 2, esc)
          ∷ (answers_at 3, esc)
          ∷ (answers_at 4, char b'q')
          ∷ [])
        (record (new_app 0) { latest_state = some online }))
press_all_quits_example =
    press_all_quits plain_outside (answers_at 1) (answers_at 2) (answers_at 3) (answers_at 4)
      (record (new_app 0) { latest_state = some online })
