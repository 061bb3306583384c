-- ===== src/Shell/MenuSteps.antt =====
-- The keys of the menu, of the list of peers, of the graph and of the form of cli/src/shell.rs keep the
-- interface sound.
use puppypeer.Prelude.{
  ℕ, suc, zero, ◌<◌, ◌≡◌, ◌≢◌, inl, refl, ◌||◌, ◌==◌, Option, none, some, List, [], ◌∷◌, length,
  get_elem?, Text, arith, String, str_eq, ok,
}
use puppypeer.State.{State, PeerId}
use puppypeer.Shell.Peers.{is_empty, PeerRow}
use puppypeer.Shell.Actions.{PeersView, new_view, new_actions, new_menu}
use puppypeer.Shell.Graph.{GraphView}
use puppypeer.Shell.Format.{Outside}
use puppypeer.Shell.App.{
  CreateUserForm, Mode, menu, ShellApp, Key, char, esc, enter, up, down, left, right, tab, back_tab,
  backspace, other, say, go, quit, quit_on,
}
use puppypeer.Shell.MenuKeys.{
  index_next, index_previous, app_next, app_previous, choose, choose_at, chosen_by, activate,
  menu_key, open_actions, peers_key, graph_key,
}
use puppypeer.Shell.FormKeys.{submit, form_key}
use puppypeer.Shell.Sound.{
  Yields, OnSome, InList, get_elem?-OnSome, view_next-IsListed, view_previous-IsListed,
  graph_next-InList, graph_previous-InList, holds-if, IsPeerText, IsListed, IsMode, IsSound,
}

OnSome-always {ℓ} : {A : Type ℓ} (P : A → Type 0) (o : Option A) → ((a : A) → P a) → OnSome P o
OnSome-always P none f = tt
OnSome-always P (some a) f = f a

-- Where an element is found the list is not empty.
get_elem?_known {ℓ} :
    {A : Type ℓ} (K : Type 0) (xs : List A) (i : ℕ)
    → (xs ≢ [] → K)
    → OnSome (λ x. K) (get_elem? xs i)
get_elem?_known K [] i f = tt
get_elem?_known K (x ∷ xs) i f =
    OnSome-always _ (get_elem? (x ∷ xs) i) (λ y. f (λ e. ground (arith, e)))

next-Yields :
    (len : ℕ) (o : Option ℕ)
    → Yields (λ i. i < len) o
    → Yields (λ i. i < len) (some (index_next len o))
next-Yields len none h = absurd h
next-Yields len (some i) h = ground arith

previous-Yields :
    (len : ℕ) (o : Option ℕ)
    → Yields (λ i. i < len) o
    → Yields (λ i. i < len) (some (index_previous len o))
previous-Yields len none h = absurd h
previous-Yields len (some i) h = ground arith

module _ (outside : Outside) where
  open outside use {display, parse_peer}

  -- A peer id that libp2p writes is read back.
  abbrev pub ReadsBack : Type 0
  ReadsBack = (p : PeerId) → parse_peer (display.peer_text p) ≡ ok p

  abbrev Sound : ShellApp → Type 0
  Sound = IsSound display

  abbrev SoundIn : Option State → Mode → Type 0
  SoundIn = IsMode display

  pub go-IsSound :
      (a : ShellApp) (m : Mode) (t : Text)
      → IsSound display a
      → IsMode display a.latest_state m
      → IsSound display (go a m t)
  go-IsSound a m t h n = record { menu_is = h.menu_is; menu_cursor = h.menu_cursor; in_mode = n }

  pub say-IsSound : (a : ShellApp) (t : Text) → Sound a → Sound (say a t)
  say-IsSound a t h = go-IsSound a a.mode t h h.in_mode

  pub quit_on-IsSound : (c : ℕ) (a : ShellApp) → Sound a → Sound (quit_on c a)
  quit_on-IsSound c a h =
      holds-if Sound (c == b'q') (quit a) a
        (record { menu_is = h.menu_is; menu_cursor = h.menu_cursor; in_mode = h.in_mode }) h

  new_view-IsListed : (latest : Option State) → IsListed display latest new_view
  new_view-IsListed latest = record {
    cursor = inl (refl, refl);
    named = tt;
    known = λ ne. absurd (ne refl);
  }

  choose-IsSound : (item : String) (a : ShellApp) → Sound a → Sound (choose item a)
  choose-IsSound item a h =
      holds-if Sound (str_eq item "quit") _ _
        (record { menu_is = h.menu_is; menu_cursor = h.menu_cursor; in_mode = h.in_mode })
        (holds-if Sound (str_eq item "peers") _ _
          (go-IsSound a _ _ h (new_view-IsListed a.latest_state))
          (holds-if Sound (str_eq item "create token") _ _ (say-IsSound a _ h) (
            holds-if Sound (str_eq item "create user") _ _ (go-IsSound a _ _ h tt) (
              holds-if Sound (str_eq item "peers graph") _ _ (go-IsSound a _ _ h (inl (refl, refl)))
                h))))

  choose_at-Yields :
      (xs : List String) (i : ℕ) (a : ShellApp)
      → Sound a
      → i < length xs
      → Yields Sound (choose_at (get_elem? xs i) a)
  choose_at-Yields [] i a h lt = absurd (omega (arith, lt))
  choose_at-Yields (x ∷ xs) zero a h lt = choose-IsSound x a h
  choose_at-Yields (x ∷ xs) (suc i) a h lt = choose_at-Yields xs i a h (omega arith)

  chosen_by-Yields :
      (o : Option ℕ) (a : ShellApp)
      → Sound a
      → Yields (λ i. i < length a.menu_items) o
      → Yields Sound (chosen_by o a)
  chosen_by-Yields none a h lt = absurd lt
  chosen_by-Yields (some i) a h lt = choose_at-Yields a.menu_items i a h lt

  pub menu_key-Yields : (k : Key) (a : ShellApp) → Sound a → Yields Sound (menu_key k a)
  unfolding menu_key app_next app_previous activate
  menu_key-Yields (char c) a h = quit_on-IsSound c a h
  menu_key-Yields down a h = record {
    menu_is = h.menu_is;
    menu_cursor = next-Yields (length a.menu_items) a.menu_selected h.menu_cursor;
    in_mode = h.in_mode;
  }
  menu_key-Yields up a h = record {
    menu_is = h.menu_is;
    menu_cursor = previous-Yields (length a.menu_items) a.menu_selected h.menu_cursor;
    in_mode = h.in_mode;
  }
  menu_key-Yields enter a h = chosen_by-Yields a.menu_selected a h h.menu_cursor
  menu_key-Yields esc a h = h
  menu_key-Yields left a h = h
  menu_key-Yields right a h = h
  menu_key-Yields tab a h = h
  menu_key-Yields back_tab a h = h
  menu_key-Yields backspace a h = h
  menu_key-Yields other a h = h

  open_actions-IsSound :
      (v : PeersView) (o : Option PeerRow) (a : ShellApp)
      → Sound a
      → IsListed display a.latest_state v
      → OnSome (λ r. IsPeerText display r.id) o
      → OnSome (λ r. a.latest_state ≢ none) o
      → Sound (open_actions v o a)
  unfolding new_actions new_menu
  open_actions-IsSound v none a h l n k = h
  open_actions-IsSound v (some r) a h l n k = go-IsSound a _ _ h (l, n, refl, omega arith, k)

  pub peers_key-IsSound :
      (k : Key) (v : PeersView) (a : ShellApp)
      → Sound a
      → IsListed display a.latest_state v
      → Sound (peers_key k v a)
  unfolding peers_key
  peers_key-IsSound esc v a h l = go-IsSound a menu _ h tt
  peers_key-IsSound down v a h l =
      go-IsSound a _ _ h (view_next-IsListed display a.latest_state v l)
  peers_key-IsSound up v a h l =
      go-IsSound a _ _ h (view_previous-IsListed display a.latest_state v l)
  peers_key-IsSound enter v a h l =
      open_actions-IsSound v (get_elem? v.peers v.selected) a h l
        (get_elem?-OnSome _ v.peers v.selected l.named)
        (get_elem?_known _ v.peers v.selected l.known)
  peers_key-IsSound (char c) v a h l = quit_on-IsSound c a h
  peers_key-IsSound left v a h l = h
  peers_key-IsSound right v a h l = h
  peers_key-IsSound tab v a h l = h
  peers_key-IsSound back_tab v a h l = h
  peers_key-IsSound backspace v a h l = h
  peers_key-IsSound other v a h l = h

  pub graph_key-IsSound :
      (k : Key) (g : GraphView) (a : ShellApp)
      → Sound a
      → InList (length g.peers) g.selected
      → Sound (graph_key k g a)
  unfolding graph_key
  graph_key-IsSound esc g a h n = go-IsSound a menu _ h tt
  graph_key-IsSound left g a h n = go-IsSound a _ _ h (graph_previous-InList g n)
  graph_key-IsSound right g a h n = go-IsSound a _ _ h (graph_next-InList g n)
  graph_key-IsSound (char c) g a h n = quit_on-IsSound c a h
  graph_key-IsSound up g a h n = h
  graph_key-IsSound down g a h n = h
  graph_key-IsSound enter g a h n = h
  graph_key-IsSound tab g a h n = h
  graph_key-IsSound back_tab g a h n = h
  graph_key-IsSound backspace g a h n = h
  graph_key-IsSound other g a h n = h

  submit-IsSound : (form : CreateUserForm) (a : ShellApp) → Sound a → Sound (submit form a)
  submit-IsSound form a h =
      holds-if Sound (is_empty form.username || is_empty form.password) _ _ (go-IsSound a _ _ h tt)
        (go-IsSound a menu _ h tt)

  pub form_key-IsSound :
      (k : Key) (form : CreateUserForm) (a : ShellApp) → Sound a → Sound (form_key k form a)
  unfolding form_key
  form_key-IsSound esc form a h = go-IsSound a menu _ h tt
  form_key-IsSound enter form a h = submit-IsSound form a h
  form_key-IsSound tab form a h = go-IsSound a _ _ h tt
  form_key-IsSound back_tab form a h = go-IsSound a _ _ h tt
  form_key-IsSound (char c) form a h = go-IsSound a _ _ h tt
  form_key-IsSound backspace form a h = go-IsSound a _ _ h tt
  form_key-IsSound up form a h = h
  form_key-IsSound down form a h = h
  form_key-IsSound left form a h = h
  form_key-IsSound right form a h = h
  form_key-IsSound other form a h = h
