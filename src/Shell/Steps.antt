-- ===== src/Shell/Steps.antt =====
-- Every event that `ShellApp::handle_event` of cli/src/shell.rs handles keeps the interface sound, and
-- none panics.
use puppypeer.Prelude.{
  ℕ, ◌<◌, ◌≡◌, ◌≢◌, refl, sym, ap, ◌∙◌, Option, none, some, List, [], ◌∷◌, length, Text, codes,
  text_eq, arith, String, str_eq, Result, ok, err, ◌>>=◌,
}
use puppypeer.State.{State, PeerId}
use puppypeer.Wire.{DirEntry, CpuInfo}
use puppypeer.Shell.{
  FileBrowserView, new_browser, browser_next, browser_previous, selected_entry, replace_entries,
  PeerCpuView, replace_cpus, new_cpu_view, cpu_next, cpu_previous,
}
use puppypeer.Shell.Scroll.{
  BrowserOp, CpuOp, IsBrowserShown, IsCpuShown, browse-IsShown, watch-IsShown, top-IsShown,
  replace_cpus-IsShown,
}
use puppypeer.Shell.Actions.{
  PeerActionsState, PeerActionsMenu, menu_next, menu_previous, selected_item,
}
use puppypeer.Shell.Format.{Outside, join_child_path, parent_path}
use puppypeer.Shell.App.{
  Mode, menu, peers, peer_actions, peer_cpus, file_browser, create_user, peers_graph, ShellApp, Key,
  char, esc, enter, up, down, left, right, tab, back_tab, backspace, other, Event, key, no_key,
  Answers,
}
use puppypeer.Shell.Keys.{
  create_cpu_view, with_context, create_file_browser_view, open_cpus, open_browser, act,
  actions_key, cpus_key, listed, list_at, browse_to, open_entry, open_parent, browser_key, key_in,
  handle_event,
}
use puppypeer.Shell.Sound.{Yields, Yields-if, holds-if, IsPeerText, IsMode, IsSound}
use puppypeer.Shell.MenuSteps.{
  ReadsBack, go-IsSound, say-IsSound, quit_on-IsSound, menu_key-Yields, peers_key-IsSound,
  graph_key-IsSound, form_key-IsSound,
}
use puppypeer.Shell.Reopen.{reopen-IsSound}

pub replace_cpus_peer :
    (now : ℕ) (v : PeerCpuView) (cpus : List CpuInfo)
    → (replace_cpus now v cpus).peer_id ≡ v.peer_id
unfolding replace_cpus
replace_cpus_peer now v [] = refl
replace_cpus_peer now v (c ∷ cs) = refl

-- Moving the cursor of a menu of three entries.
menu_next-InMenu :
    (m : PeerActionsMenu)
    → length m.items ≡ 3
    → m.selected < 3
    → ((menu_next m).peer ≡ m.peer)
      × (length (menu_next m).items ≡ 3)
      × ((menu_next m).selected < 3)
unfolding menu_next
menu_next-InMenu m e h = ground (arith, e, h)

menu_previous-InMenu :
    (m : PeerActionsMenu)
    → length m.items ≡ 3
    → m.selected < 3
    → ((menu_previous m).peer ≡ m.peer)
      × (length (menu_previous m).items ≡ 3)
      × ((menu_previous m).selected < 3)
unfolding menu_previous
menu_previous-InMenu m e h = ground (arith, e, h)

abbrev pub IsOk {ℓ} : {A : Type ℓ} → Result A → Type 0
IsOk (ok a) = Unit
IsOk (err e) = ⊥

module _ (outside : Outside) where
  open outside use {display, parse_peer}

  abbrev Sound : ShellApp → Type 0
  Sound = IsSound display

  abbrev OnOk {ℓ} : {A : Type ℓ} → (A → Type 0) → Result A → Type 0
  OnOk P (ok a) = P a
  OnOk P (err e) = Unit

  bind-OnOk {ℓ κ} :
      {A : Type ℓ} {B : Type κ} (P : B → Type 0) (m : Result A) (f : A → Result B)
      → ((a : A) → OnOk P (f a))
      → OnOk P (m >>= f)
  bind-OnOk P (ok a) f h = h a
  bind-OnOk P (err e) f h = tt

  create_cpu_view-OnOk :
      (ans : Answers) (id : Text)
      → OnOk (λ v. IsCpuShown v × (v.peer_id ≡ id)) (create_cpu_view outside ans id)
  unfolding create_cpu_view new_cpu_view
  create_cpu_view-OnOk ans id = bind-OnOk _ (parse_peer id) _ (λ p.
      bind-OnOk _ (ans.list_cpus p) _ (λ cpus.
        (replace_cpus-IsShown ans.now _ cpus (omega arith), replace_cpus_peer ans.now _ cpus)))

  create_file_browser_view-OnOk :
      (ans : Answers) (id : Text)
      → OnOk (λ v. IsBrowserShown v × (v.peer_id ≡ id)) (create_file_browser_view outside ans id)
  unfolding create_file_browser_view new_browser
  create_file_browser_view-OnOk ans id = bind-OnOk _ (parse_peer id) _ (λ p.
      bind-OnOk _ (with_context outside "listing / locally" (ans.list_dir p (codes "/"))) _
        (λ entries. (top-IsShown (length entries), refl)))

  open_cpus-IsSound :
      (id : Text) (r : Result PeerCpuView) (a : ShellApp)
      → Sound a
      → IsPeerText display id
      → a.latest_state ≢ none
      → OnOk (λ v. IsCpuShown v × (v.peer_id ≡ id)) r
      → Sound (open_cpus outside r a)
  open_cpus-IsSound id (ok v) a h n k s =
      go-IsSound outside a (peer_cpus v) _ h (s.0, (n.0, n.1 ∙ sym s.1), k)
  open_cpus-IsSound id (err e) a h n k s = say-IsSound outside a _ h

  open_browser-IsSound :
      (id : Text) (r : Result FileBrowserView) (a : ShellApp)
      → Sound a
      → IsPeerText display id
      → a.latest_state ≢ none
      → OnOk (λ v. IsBrowserShown v × (v.peer_id ≡ id)) r
      → Sound (open_browser outside id r a)
  open_browser-IsSound id (ok v) a h n k s =
      go-IsSound outside a (file_browser v) _ h (s.0, (n.0, n.1 ∙ sym s.1), k)
  open_browser-IsSound id (err e) a h n k s = say-IsSound outside a _ h

  act-IsSound :
      (ans : Answers) (o : Option String) (s : PeerActionsState) (a : ShellApp)
      → Sound a
      → IsMode display a.latest_state (peer_actions s)
      → Sound (act outside ans o s a)
  act-IsSound ans none s a h n = h
  act-IsSound ans (some item) s a h n =
      let id = s.menu.peer.id in
      holds-if Sound (str_eq item "cpu info") _ _
        (open_cpus-IsSound id _ a h n.1 n.4 (create_cpu_view-OnOk ans id))
        (holds-if Sound (str_eq item "file browser") _ _
          (open_browser-IsSound id _ a h n.1 n.4 (create_file_browser_view-OnOk ans id))
          (holds-if Sound (str_eq item "back") _ _ (go-IsSound outside a _ _ h n.0) h))

  menu-IsMode :
      (latest : Option State) (s : PeerActionsState) (m : PeerActionsMenu)
      → IsMode display latest (peer_actions s)
      → (m.peer ≡ s.menu.peer) × (length m.items ≡ 3) × (m.selected < 3)
      → IsMode display latest (peer_actions (record s { menu = m }))
  menu-IsMode latest s m n k = (n.0, (n.1.0, n.1.1 ∙ sym (ap (λ r. r.id) k.0)), k.1, k.2, n.4)

  actions_key-IsSound :
      (ans : Answers) (k : Key) (s : PeerActionsState) (a : ShellApp)
      → Sound a
      → IsMode display a.latest_state (peer_actions s)
      → Sound (actions_key outside ans k s a)
  unfolding actions_key
  actions_key-IsSound ans esc s a h n = go-IsSound outside a (peers s.view) _ h n.0
  actions_key-IsSound ans down s a h n =
      go-IsSound outside a _ _ h
        (menu-IsMode a.latest_state s (menu_next s.menu) n (menu_next-InMenu s.menu n.2 n.3))
  actions_key-IsSound ans up s a h n =
      go-IsSound outside a _ _ h (
        menu-IsMode a.latest_state s (menu_previous s.menu) n (menu_previous-InMenu s.menu n.2 n.3))
  actions_key-IsSound ans enter s a h n = act-IsSound ans (selected_item s.menu) s a h n
  actions_key-IsSound ans (char c) s a h n = quit_on-IsSound outside c a h
  actions_key-IsSound ans left s a h n = h
  actions_key-IsSound ans right s a h n = h
  actions_key-IsSound ans tab s a h n = h
  actions_key-IsSound ans back_tab s a h n = h
  actions_key-IsSound ans backspace s a h n = h
  actions_key-IsSound ans other s a h n = h

  cpus_key-IsSound :
      (k : Key) (v : PeerCpuView) (a : ShellApp)
      → Sound a
      → IsMode display a.latest_state (peer_cpus v)
      → Sound (cpus_key outside k v a)
  unfolding cpus_key cpu_next cpu_previous
  cpus_key-IsSound esc v a h n = reopen-IsSound outside v.peer_id a h
  cpus_key-IsSound down v a h n =
      go-IsSound outside a (peer_cpus (cpu_next v)) _ h (watch-IsShown CpuOp.down v n.0, n.1, n.2)
  cpus_key-IsSound up v a h n =
      go-IsSound outside a (peer_cpus (cpu_previous v)) _ h (watch-IsShown CpuOp.up v n.0, n.1, n.2)
  cpus_key-IsSound (char c) v a h n = quit_on-IsSound outside c a h
  cpus_key-IsSound enter v a h n = h
  cpus_key-IsSound left v a h n = h
  cpus_key-IsSound right v a h n = h
  cpus_key-IsSound tab v a h n = h
  cpus_key-IsSound back_tab v a h n = h
  cpus_key-IsSound backspace v a h n = h
  cpus_key-IsSound other v a h n = h

  listed-IsSound :
      (target : Text) (v : FileBrowserView) (r : Result (List DirEntry)) (a : ShellApp)
      → Sound a
      → IsMode display a.latest_state (file_browser v)
      → Sound (listed outside target v r a)
  unfolding replace_entries
  listed-IsSound target v (ok entries) a h n =
      go-IsSound outside a (file_browser (replace_entries v target entries)) _ h
        (browse-IsShown (BrowserOp.open_dir target entries) v n.0, n.1, n.2)
  listed-IsSound target v (err e) a h n = say-IsSound outside a _ h

  module _ (reads : ReadsBack outside) where
    pub parse-IsOk : (id : Text) → IsPeerText display id → IsOk (parse_peer id)
    parse-IsOk id n = rw (ap parse_peer (sym n.1) ∙ reads n.0) tt

    list_at-Yields :
        (ans : Answers) (target : Text) (v : FileBrowserView) (r : Result PeerId) (a : ShellApp)
        → Sound a
        → IsMode display a.latest_state (file_browser v)
        → IsOk r
        → Yields Sound (list_at outside ans target v r a)
    list_at-Yields ans target v (ok p) a h n k =
        listed-IsSound target v (ans.list_dir p target) a h n
    list_at-Yields ans target v (err e) a h n k = absurd k

    browse_to-Yields :
        (ans : Answers) (target : Text) (v : FileBrowserView) (a : ShellApp)
        → Sound a
        → IsMode display a.latest_state (file_browser v)
        → Yields Sound (browse_to outside ans target v a)
    unfolding browse_to
    browse_to-Yields ans target v a h n =
        list_at-Yields ans target v (parse_peer v.peer_id) a h n (parse-IsOk v.peer_id n.1)

    open_entry-Yields :
        (ans : Answers) (o : Option DirEntry) (v : FileBrowserView) (a : ShellApp)
        → Sound a
        → IsMode display a.latest_state (file_browser v)
        → Yields Sound (open_entry outside ans o v a)
    open_entry-Yields ans none v a h n = h
    open_entry-Yields ans (some e) v a h n =
        Yields-if Sound e.is_dir _ _ (browse_to-Yields ans (join_child_path v.path e.name) v a h n)
          (say-IsSound outside a _ h)

    open_parent-Yields :
        (ans : Answers) (v : FileBrowserView) (a : ShellApp)
        → Sound a
        → IsMode display a.latest_state (file_browser v)
        → Yields Sound (open_parent outside ans v a)
    unfolding open_parent
    open_parent-Yields ans v a h n =
        Yields-if Sound (text_eq (parent_path v.path) v.path) _ _ h
          (browse_to-Yields ans (parent_path v.path) v a h n)

    browser_key-Yields :
        (ans : Answers) (k : Key) (v : FileBrowserView) (a : ShellApp)
        → Sound a
        → IsMode display a.latest_state (file_browser v)
        → Yields Sound (browser_key outside ans k v a)
    unfolding browser_key browser_next browser_previous
    browser_key-Yields ans esc v a h n = reopen-IsSound outside v.peer_id a h
    browser_key-Yields ans down v a h n =
        go-IsSound outside a (file_browser (browser_next v)) _ h
          (browse-IsShown BrowserOp.down v n.0, n.1, n.2)
    browser_key-Yields ans up v a h n =
        go-IsSound outside a (file_browser (browser_previous v)) _ h
          (browse-IsShown BrowserOp.up v n.0, n.1, n.2)
    browser_key-Yields ans enter v a h n = open_entry-Yields ans (selected_entry v) v a h n
    browser_key-Yields ans backspace v a h n = open_parent-Yields ans v a h n
    browser_key-Yields ans left v a h n = open_parent-Yields ans v a h n
    browser_key-Yields ans (char c) v a h n = quit_on-IsSound outside c a h
    browser_key-Yields ans right v a h n = h
    browser_key-Yields ans tab v a h n = h
    browser_key-Yields ans back_tab v a h n = h
    browser_key-Yields ans other v a h n = h

    key_in-Yields :
        (ans : Answers) (k : Key) (m : Mode) (a : ShellApp)
        → Sound a
        → IsMode display a.latest_state m
        → Yields Sound (key_in outside ans k m a)
    key_in-Yields ans k menu a h n = menu_key-Yields outside k a h
    key_in-Yields ans k (peers v) a h n = peers_key-IsSound outside k v a h n
    key_in-Yields ans k (peer_actions s) a h n = actions_key-IsSound ans k s a h n
    key_in-Yields ans k (peer_cpus v) a h n = cpus_key-IsSound k v a h n
    key_in-Yields ans k (file_browser v) a h n = browser_key-Yields ans k v a h n
    key_in-Yields ans k (create_user form) a h n = form_key-IsSound outside k form a h
    key_in-Yields ans k (peers_graph g) a h n = graph_key-IsSound outside k g a h n

    -- No key panics, and each leaves the interface sound.
    pub handle_event-Yields :
        (ans : Answers) (e : Event) (a : ShellApp)
        → IsSound display a
        → Yields (IsSound display) (handle_event outside ans e a)
    unfolding handle_event
    handle_event-Yields ans (key k) a h = key_in-Yields ans k a.mode a h h.in_mode
    handle_event-Yields ans no_key a h = h
