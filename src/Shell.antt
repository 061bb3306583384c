-- ===== src/Shell.antt =====
-- cli/src/shell.rs: the lists of the terminal interface, with the entry that is selected and the part
-- that is shown. `FileBrowserView` and `PeerCpuView` hold a copy of one scrolling code each; the
-- model has it once, as operations on a `Window`, and both views use it. Lengths are far below
-- `usize::MAX`, so that no sum of the source overflows. Drawing is left out.
pub mod Scroll
pub mod Peers
pub mod Rows
pub mod Aggregate
pub mod Actions
pub mod Chosen
pub mod Graph
pub mod Format
pub mod App
pub mod MenuKeys
pub mod FormKeys
pub mod Keys
pub mod Panel
pub mod Refresh
pub mod Sound
pub mod MenuSteps
pub mod Reopen
pub mod Steps
pub mod Refreshed
pub mod Runs
pub mod Escape
pub mod Typing
use puppypeer.Prelude.{
  ℕ, suc, ◌+◌, ◌-◌, ◌%◌, min, max, Bool, true, false, ◌==◌, Option, List, [], ◌∷◌, length,
  get_elem?, Text, ltb, leb, if◌then◌else◌,
}
use puppypeer.Wire.{DirEntry, CpuInfo}

pub record Window : Type 0 where
  pub selected : ℕ
  pub scroll : ℕ
  pub viewport : ℕ

-- The scroll that shows the selected entry: `window` entries are shown.
abbrev pub scroll_to : ℕ → ℕ → ℕ → ℕ
scroll_to window selected scroll =
    if ltb selected scroll
    then selected
    else if leb (scroll + window) selected
    then selected + 1 - window
    else scroll

abbrev pub at_most : ℕ → ℕ → ℕ
at_most bound n = if ltb bound n then bound else n

abbrev pub clamped : ℕ → ℕ → Window → Window
clamped len selected w =
    let window = min w.viewport len in
    if window == 0 then record w { selected = selected; scroll = 0 } else record w {
      selected = selected;
      scroll = at_most (len - window) (scroll_to window selected w.scroll);
    }

-- `clamp_scroll` of a list of `len` entries.
unfoldable pub clamp_scroll : ℕ → Window → Window
clamp_scroll len w =
    if len == 0
    then record w { selected = 0; scroll = 0 }
    else clamped len (if leb len w.selected then len - 1 else w.selected) w

unfoldable pub next : ℕ → Window → Window
unfolding clamp_scroll
next len w =
    if len == 0
    then w
    else if ltb (w.selected + 1) len
    then clamp_scroll len (record w { selected = w.selected + 1 })
    else clamp_scroll len (record w { selected = 0; scroll = 0 })

unfoldable pub previous : ℕ → Window → Window
unfolding clamp_scroll
previous len w =
    if len == 0
    then w
    else if w.selected == 0
    then clamp_scroll len (record w { selected = len - 1; scroll = len - w.viewport })
    else clamp_scroll len (record w { selected = w.selected - 1 })

unfoldable pub set_viewport : ℕ → ℕ → Window → Window
unfolding clamp_scroll
set_viewport len viewport w = clamp_scroll len (record w { viewport = max viewport 1 })

abbrev pub top : ℕ → Window
top viewport = record { selected = 0; scroll = 0; viewport = viewport }

pub record FileBrowserView : Type 0 where
  pub peer_id : Text
  pub path : Text
  pub entries : List DirEntry
  pub window : Window

unfoldable pub new_browser : Text → Text → List DirEntry → FileBrowserView
new_browser peer_id path entries = record {
  peer_id = peer_id;
  path = path;
  entries = entries;
  window = top 1;
}

unfoldable pub browser_next : FileBrowserView → FileBrowserView
browser_next v = record v { window = next (length v.entries) v.window }

unfoldable pub browser_previous : FileBrowserView → FileBrowserView
browser_previous v = record v { window = previous (length v.entries) v.window }

unfoldable pub browser_set_viewport : FileBrowserView → ℕ → FileBrowserView
browser_set_viewport v viewport = record v {
  window = set_viewport (length v.entries) viewport v.window;
}

unfoldable pub selected_entry : FileBrowserView → Option DirEntry
selected_entry v = get_elem? v.entries v.window.selected

unfoldable pub replace_entries : FileBrowserView → Text → List DirEntry → FileBrowserView
replace_entries v path entries = record v {
  path = path;
  entries = entries;
  window = clamp_scroll (length entries) (top v.window.viewport);
}

-- An instant is a number.
pub record PeerCpuView : Type 0 where
  pub peer_id : Text
  pub cpus : List CpuInfo
  pub window : Window
  pub last_refresh : ℕ

abbrev pub mark_refreshed : ℕ → PeerCpuView → PeerCpuView
mark_refreshed now v = record v { last_refresh = now }

-- The selection is kept where the new list is long enough.
unfoldable pub replace_cpus : ℕ → PeerCpuView → List CpuInfo → PeerCpuView
replace_cpus now v [] =
    mark_refreshed now (record v { cpus = []; window = clamp_scroll 0 (top v.window.viewport) })
replace_cpus now v (c ∷ cs) =
    mark_refreshed now
      (record v { cpus = c ∷ cs; window = clamp_scroll (length (c ∷ cs)) v.window })

unfoldable pub new_cpu_view : Text → ℕ → List CpuInfo → PeerCpuView
new_cpu_view peer_id now cpus =
    replace_cpus now (record { peer_id = peer_id; cpus = []; window = top 1; last_refresh = now })
      cpus

unfoldable pub cpu_next : PeerCpuView → PeerCpuView
cpu_next v = record v { window = next (length v.cpus) v.window }

unfoldable pub cpu_previous : PeerCpuView → PeerCpuView
cpu_previous v = record v { window = previous (length v.cpus) v.window }

unfoldable pub cpu_set_viewport : PeerCpuView → ℕ → PeerCpuView
cpu_set_viewport v viewport = record v { window = set_viewport (length v.cpus) viewport v.window }

unfoldable pub selected_cpu : PeerCpuView → Option CpuInfo
selected_cpu v = get_elem? v.cpus v.window.selected
