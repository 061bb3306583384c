-- ===== src/Inventory/Queries.antt =====
-- The queries of files in core/src/db.rs, on the tables that the scanner fills. A time that is null cannot
-- be read as a text. SQLite's error texts are those of rusqlite.
use puppypeer.Prelude.{
  ℕ, ◌==◌, ◌≡◌, ◌≢◌, refl, ap, String, str_eq, false, ◌&&◌, Option, none, some, List, [], ◌∷◌, All,
  any, find, length, text_eq, if◌then◌else◌, Result, ok, err, ◌>>=◌, arith,
}
use puppypeer.Os.{FileTime}
use puppypeer.Scan.{FileHash, NodeId, FileLocation, FileRow, FileEntry, option_eq}

-- `FileEntry` of core/src/db.rs, whose times are there.
pub record Entry : Type 0 where
  pub hash : FileHash
  pub size : ℕ
  pub mime_type : Option String
  pub first_datetime : ℕ
  pub latest_datetime : ℕ

abbrev pub get_time : FileTime → Result ℕ
get_time none = err "Invalid column type Null"
get_time (some t) = ok t

abbrev pub get_hash : FileHash → Result FileHash
get_hash h = if length h == 32 then ok h else err "Invalid column type Blob"

unfoldable pub read_entry : FileEntry → Result Entry
read_entry e = do
  hash ← get_hash e.hash
  first ← get_time e.first_datetime
  latest ← get_time e.latest_datetime
  ok (record {
    hash = hash;
    size = e.size;
    mime_type = e.mime_type;
    first_datetime = first;
    latest_datetime = latest;
  })

abbrev pub read_all : List FileEntry → Result (List Entry)
read_all [] = ok []
read_all (e ∷ es) = let rest = read_all es in read_entry e >>= (λ f. rest >>= (λ fs. ok (f ∷ fs)))

-- The search word has no effect.
unfoldable pub list_files : Option String → Option String → List FileEntry → Result (List Entry)
unfolding read_entry
list_files (some e) search_word rows = err e
list_files none search_word rows = read_all rows

abbrev pub add_mime : Option String → List String → List String
add_mime none ms = ms
add_mime (some m) ms = if any (λ n. str_eq n m) ms then ms else m ∷ ms

-- SELECT DISTINCT, in some order.
abbrev pub distinct_mimes : List FileEntry → List String
distinct_mimes [] = []
distinct_mimes (e ∷ es) = add_mime e.mime_type (distinct_mimes es)

unfoldable pub get_mime_types : Option String → List FileEntry → Result (List String)
get_mime_types (some e) rows = err e
get_mime_types none rows = ok (distinct_mimes rows)

abbrev pub first_entry : Option FileEntry → Result (Option Entry)
first_entry none = err "Query returned no rows"
first_entry (some e) = read_entry e >>= (λ f. ok (some f))

unfoldable pub get_file_entry : Option String → FileHash → List FileEntry → Result (Option Entry)
unfolding read_entry
get_file_entry (some e) hash rows = err e
get_file_entry none hash rows = first_entry (find (λ e. text_eq e.hash hash) rows)

-- `none` is a panic: a hash that is not 32 bytes long.
abbrev pub checked_location : FileLocation → Option FileHash → Option (Result (Option FileLocation))
checked_location l none = some (ok (some l))
checked_location l (some h) = if length h == 32 then some (ok (some l)) else none

abbrev pub first_location : Option FileRow → Option (Result (Option FileLocation))
first_location none = some (ok none)
first_location (some r) =
    checked_location (record (r.location) { mime_type = none }) r.location.hash

unfoldable pub get_file_location :
    Option String → NodeId → FileHash → List FileRow → Option (Result (Option FileLocation))
get_file_location (some e) node_id hash rows = some (err e)
get_file_location none node_id hash rows =
    first_location
      (find (λ r. (r.node_id == node_id) && option_eq text_eq r.location.hash (some hash)) rows)

bind_some :
    (r : Result Entry) → ◌≢◌ {A = Result (Option Entry)} (r >>= (λ f. ok (some f))) (ok none)
bind_some (ok f) e = ground (arith, e)
bind_some (err m) e = ground (arith, e)

first_entry_some : (o : Option FileEntry) → first_entry o ≢ ok none
first_entry_some none e = ground (arith, e)
first_entry_some (some x) e = bind_some (read_entry x) e

find-none :
    (hash : FileHash) (rows : List FileEntry)
    → All (λ r. text_eq r.hash hash ≡ false) rows
    → find (λ r. text_eq r.hash hash) rows ≡ none
find-none hash [] h = refl
find-none hash (r ∷ rs) h = rw (h.0, find-none hash rs h.1) refl

-- The query of a file by its hash never answers that there is none: where no row has the hash it
-- reports an error, as it does when the statement fails.
pub get_file_entry_lem :
    (fault : Option String) (hash : FileHash) (rows : List FileEntry)
    → All (λ r. text_eq r.hash hash ≡ false) rows
    → ((others : List FileEntry) → get_file_entry fault hash others ≢ ok none)
      × (message : String) × (get_file_entry fault hash rows ≡ err message)
unfolding get_file_entry
get_file_entry_lem (some e) hash rows h = (λ others q. ground (arith, q), e, refl)
get_file_entry_lem none hash rows h = (
  λ others q. first_entry_some (find (λ r. text_eq r.hash hash) others) q,
  "Query returned no rows",
  ap first_entry (find-none hash rows h),
)
