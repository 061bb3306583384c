-- ===== src/Shell/Escape.antt =====
-- The way out of every mode of cli/src/shell.rs.
use puppypeer.Prelude.{ℕ, ◌-◌, ◌≤◌, ◌≡◌, refl, true, Option, none, some, List, [], ◌∷◌, arith, Text}
use puppypeer.Shell.Actions.{PeerActionsState, peer_actions_state_for}
use puppypeer.Shell.Format.{Outside}
use puppypeer.Shell.App.{
  Mode, menu, peers, peer_actions, peer_cpus, file_browser, create_user, peers_graph, ShellApp, Key,
  char, esc, key, Answers, stay,
}
use puppypeer.Shell.MenuKeys.{menu_key, peers_key, graph_key}
use puppypeer.Shell.FormKeys.{form_key}
use puppypeer.Shell.Keys.{
  reopened, reopen, actions_key, cpus_key, browser_key, key_in, handle_event,
}
use puppypeer.Shell.Refresh.{◌>>=◌}
use puppypeer.Shell.Sound.{Yields}
use puppypeer.Shell.Refreshed.{bind-Yields}

-- How far a mode is from the menu.
abbrev pub depth : Mode → ℕ
depth menu = 0
depth (peers v) = 1
depth (create_user form) = 1
depth (peers_graph g) = 1
depth (peer_actions s) = 2
depth (peer_cpus v) = 3
depth (file_browser v) = 3

Yields-imp {ℓ} :
    {A : Type ℓ} (P Q : A → Type 0) (o : Option A) → ((a : A) → P a → Q a) → Yields P o → Yields Q o
Yields-imp P Q none f h = h
Yields-imp P Q (some a) f h = f a h

depth_le : (m : Mode) → depth m ≤ 3
depth_le menu = omega arith
depth_le (peers v) = omega arith
depth_le (create_user form) = omega arith
depth_le (peers_graph g) = omega arith
depth_le (peer_actions s) = omega arith
depth_le (peer_cpus v) = omega arith
depth_le (file_browser v) = omega arith

module _ (outside : Outside) where
  -- The keys that are pressed, each with what the node answers meanwhile.
  unfoldable pub press_all : List (Answers × Key) → ShellApp → Option ShellApp
  press_all [] a = some a
  press_all ((ans, k) ∷ ks) a = handle_event outside ans (key k) a >>= press_all ks

  depth-reopened :
      (id : Text) (o : Option PeerActionsState) (a : ShellApp)
      → depth (reopened outside id o a).mode ≤ 2
  depth-reopened id none a = omega arith
  depth-reopened id (some s) a = omega arith

  depth-reopen : (id : Text) (a : ShellApp) → depth (reopen outside id a).mode ≤ 2
  unfolding reopen
  depth-reopen id a = depth-reopened id (peer_actions_state_for outside.display a.latest_state id) a

  escape_depth :
      (ans : Answers) (m : Mode) (a : ShellApp)
      → Yields (λ b. depth b.mode ≤ depth m - 1) (key_in outside ans esc m (stay a m))
  unfolding menu_key peers_key graph_key form_key actions_key cpus_key browser_key
  escape_depth ans menu a = omega arith
  escape_depth ans (peers v) a = omega arith
  escape_depth ans (create_user form) a = omega arith
  escape_depth ans (peers_graph g) a = omega arith
  escape_depth ans (peer_actions s) a = omega arith
  escape_depth ans (peer_cpus v) a = depth-reopen v.peer_id (stay a (peer_cpus v))
  escape_depth ans (file_browser v) a = depth-reopen v.peer_id (stay a (file_browser v))

  -- One step nearer to the menu, from a mode at depth `n`.
  escape_step :
      (ans : Answers) (n : ℕ) (a : ShellApp)
      → depth a.mode ≤ n
      → Yields (λ b. depth b.mode ≤ n - 1) (handle_event outside ans (key esc) a)
  unfolding handle_event
  escape_step ans n a h =
      Yields-imp (λ b. depth b.mode ≤ depth a.mode - 1) (λ b. depth b.mode ≤ n - 1)
        (key_in outside ans esc a.mode a) (λ b k. omega (arith, h, k)) (escape_depth ans a.mode a)

  quits :
      (ans : Answers) (m : Mode) (a : ShellApp)
      → depth m ≤ 0
      → Yields (λ b. b.should_quit ≡ true) (key_in outside ans (char b'q') m a)
  unfolding menu_key
  quits ans menu a h = refl
  quits ans (peers v) a h = absurd (omega (arith, h))
  quits ans (create_user form) a h = absurd (omega (arith, h))
  quits ans (peers_graph g) a h = absurd (omega (arith, h))
  quits ans (peer_actions s) a h = absurd (omega (arith, h))
  quits ans (peer_cpus v) a h = absurd (omega (arith, h))
  quits ans (file_browser v) a h = absurd (omega (arith, h))

-- From every mode and whatever the node answers, pressing Esc three times and then `q` ends the
-- interface: no key of these panics, and the loop is told to quit.
pub press_all_quits :
    (outside : Outside) (x y z w : Answers) (a : ShellApp)
    → Yields
        (λ b. b.should_quit ≡ true)
        (press_all outside ((x, esc) ∷ (y, esc) ∷ (z, esc) ∷ (w, char b'q') ∷ []) a)
unfolding press_all handle_event
press_all_quits outside x y z w a =
    bind-Yields (λ b. depth b.mode ≤ 2) _ (handle_event outside x (key esc) a) _
      (escape_step outside x 3 a (depth_le a.mode))
      (λ b hb.
        bind-Yields (λ c. depth c.mode ≤ 1) _ (handle_event outside y (key esc) b) _
          (escape_step outside y 2 b hb)
          (λ c hc.
            bind-Yields (λ d. depth d.mode ≤ 0) _ (handle_event outside z (key esc) c) _
              (escape_step outside z 1 c hc)
              (λ d hd.
                bind-Yields (λ e. e.should_quit ≡ true) _
                  (handle_event outside w (key (char b'q')) d) _ (quits outside w d.mode d hd)
                  (λ e he. he))))
