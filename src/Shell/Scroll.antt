-- ===== src/Shell/Scroll.antt =====
-- The scrolling of cli/src/shell.rs keeps the selected entry within the part that is shown.
use puppypeer.Prelude.{
  ℕ, ◌+◌, ◌-◌, ◌≤◌, ◌<◌, ◌≡◌, ◌⊎◌, inl, inr, ap, ◌∙◌, min, Bool, true, false, ◌==◌, List, [], ◌∷◌,
  length, Text, ltb, arith, if◌then◌else◌, Bool-cases,
}
use puppypeer.Wire.{DirEntry, CpuInfo}
use puppypeer.Shell.{
  Window, clamp_scroll, next, previous, set_viewport, top, FileBrowserView, new_browser,
  browser_next, browser_previous, browser_set_viewport, replace_entries, PeerCpuView, replace_cpus,
  new_cpu_view, cpu_next, cpu_previous, cpu_set_viewport,
}

-- The list is empty and the cursor at its start, or the selected entry is one of those that are shown,
-- and what is shown lies within the list.
abbrev pub Shows : ℕ → ℕ → ℕ → ℕ → Type 0
Shows len shown selected scroll =
    ((len ≡ 0) × (selected ≡ 0) × (scroll ≡ 0))
    ⊎ ((selected < len)
        × (scroll ≤ selected)
        × (selected < scroll + shown)
        × (scroll + shown ≤ len))

pub record IsShown (len : ℕ) (w : Window) : Type 0 where
  pub viewport_pos : 0 < w.viewport
  pub shows : Shows len (min w.viewport len) w.selected w.scroll

pub clamp_scroll-IsShown :
    (len : ℕ) (w : Window) → 0 < w.viewport → IsShown len (clamp_scroll len w)
unfolding clamp_scroll
clamp_scroll-IsShown len w pos = record { viewport_pos = ground arith; shows = ground arith }

-- Where the selected entry is shown, `clamp_scroll` moves nothing.
pub clamp_scroll_idle : (len : ℕ) (w : Window) → IsShown len w → clamp_scroll len w ≡ w
unfolding clamp_scroll
clamp_scroll_idle len w h = ground (arith, h.shows, h.viewport_pos)

IsShown-if :
    (len : ℕ) (b : Bool) (v w : Window)
    → IsShown len v
    → IsShown len w
    → IsShown len (if b then v else w)
IsShown-if len true v w hv hw = hv
IsShown-if len false v w hv hw = hw

next-IsShown : (len : ℕ) (w : Window) → IsShown len w → IsShown len (next len w)
unfolding next
next-IsShown len w h = IsShown-if len (len == 0) _ _ h (
    IsShown-if len (ltb (w.selected + 1) len) _ _ (clamp_scroll-IsShown len _ h.viewport_pos)
      (clamp_scroll-IsShown len _ h.viewport_pos))

previous-IsShown : (len : ℕ) (w : Window) → IsShown len w → IsShown len (previous len w)
unfolding previous
previous-IsShown len w h = IsShown-if len (len == 0) _ _ h (
    IsShown-if len (w.selected == 0) _ _ (clamp_scroll-IsShown len _ h.viewport_pos)
      (clamp_scroll-IsShown len _ h.viewport_pos))

pub set_viewport-IsShown : (len n : ℕ) (w : Window) → IsShown len (set_viewport len n w)
unfolding set_viewport
set_viewport-IsShown len n w = clamp_scroll-IsShown len _ (omega arith)

-- What the keys, the layout and the listings do to a file browser.
pub data BrowserOp : Type 0 where
  down up : BrowserOp
  resize : ℕ → BrowserOp
  open_dir : Text → List DirEntry → BrowserOp

abbrev pub browse : BrowserOp → FileBrowserView → FileBrowserView
browse down v = browser_next v
browse up v = browser_previous v
browse (resize n) v = browser_set_viewport v n
browse (open_dir path entries) v = replace_entries v path entries

abbrev pub browse_all : List BrowserOp → FileBrowserView → FileBrowserView
browse_all [] v = v
browse_all (o ∷ l) v = browse_all l (browse o v)

abbrev pub IsBrowserShown : FileBrowserView → Type 0
IsBrowserShown v = IsShown (length v.entries) v.window

pub browse-IsShown :
    (o : BrowserOp) (v : FileBrowserView) → IsBrowserShown v → IsBrowserShown (browse o v)
unfolding browser_next browser_previous browser_set_viewport replace_entries
browse-IsShown down v h = next-IsShown (length v.entries) v.window h
browse-IsShown up v h = previous-IsShown (length v.entries) v.window h
browse-IsShown (resize n) v h = set_viewport-IsShown (length v.entries) n v.window
browse-IsShown (open_dir path entries) v h =
    clamp_scroll-IsShown (length entries) (top v.window.viewport) h.viewport_pos

browse_all-IsShown :
    (l : List BrowserOp) (v : FileBrowserView) → IsBrowserShown v → IsBrowserShown (browse_all l v)
browse_all-IsShown [] v h = h
browse_all-IsShown (o ∷ l) v h = browse_all-IsShown l (browse o v) (browse-IsShown o v h)

pub top-IsShown : (len : ℕ) → IsShown len (top 1)
top-IsShown len = record { viewport_pos = omega arith; shows = ground arith }

-- Whatever is done to a new file browser, over whatever entries: its list is empty and the cursor at the
-- start, or the selected entry exists, is among those that are shown, and no row is shown past the end.
pub browser-IsShown :
    (peer_id : Text) (path : Text) (entries : List DirEntry) (l : List BrowserOp)
    → IsBrowserShown (browse_all l (new_browser peer_id path entries))
unfolding new_browser
browser-IsShown peer_id path entries l = browse_all-IsShown l _ (top-IsShown (length entries))

pub data CpuOp : Type 0 where
  down up : CpuOp
  resize : ℕ → CpuOp
  refresh : ℕ → List CpuInfo → CpuOp

abbrev pub watch : CpuOp → PeerCpuView → PeerCpuView
watch down v = cpu_next v
watch up v = cpu_previous v
watch (resize n) v = cpu_set_viewport v n
watch (refresh now cpus) v = replace_cpus now v cpus

abbrev pub watch_all : List CpuOp → PeerCpuView → PeerCpuView
watch_all [] v = v
watch_all (o ∷ l) v = watch_all l (watch o v)

abbrev pub IsCpuShown : PeerCpuView → Type 0
IsCpuShown v = IsShown (length v.cpus) v.window

pub replace_cpus-IsShown :
    (now : ℕ) (v : PeerCpuView) (cpus : List CpuInfo)
    → 0 < v.window.viewport
    → IsCpuShown (replace_cpus now v cpus)
unfolding replace_cpus
replace_cpus-IsShown now v [] h = clamp_scroll-IsShown 0 (top v.window.viewport) h
replace_cpus-IsShown now v (c ∷ cs) h = clamp_scroll-IsShown (length (c ∷ cs)) v.window h

pub watch-IsShown : (o : CpuOp) (v : PeerCpuView) → IsCpuShown v → IsCpuShown (watch o v)
unfolding cpu_next cpu_previous cpu_set_viewport
watch-IsShown down v h = next-IsShown (length v.cpus) v.window h
watch-IsShown up v h = previous-IsShown (length v.cpus) v.window h
watch-IsShown (resize n) v h = set_viewport-IsShown (length v.cpus) n v.window
watch-IsShown (refresh now cpus) v h = replace_cpus-IsShown now v cpus h.viewport_pos

watch_all-IsShown : (l : List CpuOp) (v : PeerCpuView) → IsCpuShown v → IsCpuShown (watch_all l v)
watch_all-IsShown [] v h = h
watch_all-IsShown (o ∷ l) v h = watch_all-IsShown l (watch o v) (watch-IsShown o v h)

-- Whatever is done to a new view of processors, also when a refresh brings fewer of them than the
-- cursor stands at: its list is empty and the cursor at the start, or the selected processor exists
-- and is among those that are shown.
pub cpus-IsShown :
    (peer_id : Text) (now : ℕ) (cpus : List CpuInfo) (l : List CpuOp)
    → IsCpuShown (watch_all l (new_cpu_view peer_id now cpus))
unfolding new_cpu_view
cpus-IsShown peer_id now cpus l =
    watch_all-IsShown l _ (replace_cpus-IsShown now _ cpus (omega arith))

clamp_selected :
    (len : ℕ) (w : Window) → w.selected < len → (clamp_scroll len w).selected ≡ w.selected
unfolding clamp_scroll
clamp_selected len w h = ground arith

-- The places after and before one of `len`, round the ends.
abbrev pub after : ℕ → ℕ → ℕ
after len i = if ltb (i + 1) len then i + 1 else 0

abbrev pub before : ℕ → ℕ → ℕ
before len i = if i == 0 then len - 1 else i - 1

next_selected :
    (len : ℕ) (w : Window) → w.selected < len → (next len w).selected ≡ after len w.selected
unfolding next
next_selected len w h = elim (Bool-cases (ltb (w.selected + 1) len)) [
  | inl e ↦ ground (arith, clamp_selected len (record w { selected = w.selected + 1 }))
  | inr e ↦ ground (arith, clamp_selected len (record w { selected = 0; scroll = 0 }))
]

previous_selected :
    (len : ℕ) (w : Window) → w.selected < len → (previous len w).selected ≡ before len w.selected
unfolding previous
previous_selected len w h = elim (Bool-cases (w.selected == 0)) [
  | inl e ↦
      ground
        (arith, clamp_selected len (record w { selected = len - 1; scroll = len - w.viewport }))
  | inr e ↦ ground (arith, clamp_selected len (record w { selected = w.selected - 1 }))
]

before_lt : (len i : ℕ) → i < len → before len i < len
before_lt len i h = ground arith

after_lt : (len i : ℕ) → i < len → after len i < len
after_lt len i h = ground arith

before-after : (len i : ℕ) → i < len → before len (after len i) ≡ i
before-after len i h = ground arith

after-before : (len i : ℕ) → i < len → after len (before len i) ≡ i
after-before len i h = ground arith

-- From an entry of the list `next` and `previous` go to the entries after and before it, round the
-- ends, and undo each other.
pub next-previous :
    (len : ℕ) (w : Window)
    → w.selected < len
    → ((next len w).selected ≡ after len w.selected)
      × ((previous len w).selected ≡ before len w.selected)
      × ((previous len (next len w)).selected ≡ w.selected)
      × ((next len (previous len w)).selected ≡ w.selected)
next-previous len w h =
    let n = next_selected len w h in
    let p = previous_selected len w h in
    (
      n,
      p,
      previous_selected len (next len w) (rw n (after_lt len w.selected h))
          ∙ ap (before len) n
          ∙ before-after len w.selected h,
      next_selected len (previous len w) (rw p (before_lt len w.selected h))
          ∙ ap (after len) p
          ∙ after-before len w.selected h,
    )
