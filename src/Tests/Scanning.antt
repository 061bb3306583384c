-- ===== src/Tests/Scanning.antt =====
-- Witnesses for Scan.antt.
use puppypeer.Prelude.{
  ◌≡◌, refl, Bool, true, false, ◌&&◌, ◌==◌, none, some, [], ◌∷◌, ◌++◌, Text, codes, text_eq, ok,
}
use mathlib.Core.List.{append-nil, append_assoc}
use puppypeer.Scan.{Digest, sha256_hash, Host, Stat, Opened, FileLocation}
use puppypeer.Scan.Store.{Tables, scan}
use puppypeer.Scan.Stored.{Yields}
use puppypeer.Scan.Locate.{locate}
use puppypeer.Scan.Reflects.{Reflects}
use puppypeer.Scan.Hashing.{TakesPieces, sha256_hash_lem}

-- A digest that keeps all its input.
abbrev plain_digest : Digest
plain_digest = record { Context = Text; start = []; update = λ c b. c ++ b; finish = λ c. c }

plain_digest_laws : TakesPieces plain_digest
plain_digest_laws = record { update-update = append_assoc; update_nil = append-nil }

sha256_hash_lem_example :
    sha256_hash plain_digest (ok (1 ∷ 2 ∷ []) ∷ ok (3 ∷ []) ∷ ok [] ∷ []) ≡ ok (1 ∷ 2 ∷ 3 ∷ [])
sha256_hash_lem_example =
    sha256_hash_lem plain_digest plain_digest_laws (ok (1 ∷ 2 ∷ []) ∷ ok (3 ∷ []) ∷ ok [] ∷ [])
      (tt, (tt, (tt, tt)))

-- LIKE with a pattern that ends in its only wildcard.
abbrev begins_like : Text → Text → Bool
begins_like [] t = false
begins_like (c ∷ []) t = true
begins_like (c ∷ d ∷ cs) [] = false
begins_like (c ∷ d ∷ cs) (x ∷ xs) = c == x && begins_like (d ∷ cs) xs

abbrev a_stat : Stat
a_stat = record { len = 3; created = none; modified = some 5; accessed = none }

abbrev a_file : Opened
a_file = record {
  full_path = codes "/s/a";
  stat = a_stat;
  head = ok [];
  rewinds = true;
  reads = ok (7 ∷ 8 ∷ 9 ∷ []) ∷ [];
}

abbrev a_host : Host
a_host = record {
  digest = plain_digest;
  infer = λ b. none;
  guess = λ p. some "text/plain";
  like = begins_like;
  now = 9;
  absolute_path = codes "/s";
  walked = codes "/s/a" ∷ [];
  metadata = λ p. some a_stat;
  open_file = λ p. some a_file;
  holds_time = λ t. true;
}

abbrev location_at : Text → FileLocation
location_at path = record {
  path = path;
  hash = some [];
  size = 1;
  mime_type = none;
  timestamp = 1;
  created_at = none;
  modified_at = none;
  accessed_at = none;
}

-- Node 1 has a row for a deleted file, and node 2 one elsewhere.
abbrev some_tables : Tables
some_tables = record {
  locations =
      record { node_id = 1; location = location_at (codes "/s/b") }
      ∷ record { node_id = 2; location = location_at (codes "/t") }
      ∷ [];
  entries = [];
}

-- A row of node 2 for the walked file: the query finds it, and node 1 gets no row.
foreign_row_hides :
    Yields
      (λ r. locate 1 (codes "/s/a") r.1.locations ≡ none)
      (scan a_host 1 (record {
        locations = record { node_id = 2; location = location_at (codes "/s/a") } ∷ [];
        entries = [];
      }))
unfolding scan sha256_hash text_eq
foreign_row_hides = refl

-- A row of node 1 for a file in a directory whose name goes on after that of the scanned one.
sibling_forgotten :
    Yields
      (λ r. locate 1 (codes "/s2/x") r.1.locations ≡ none)
      (scan a_host 1 (record {
        locations = record { node_id = 1; location = location_at (codes "/s2/x") } ∷ [];
        entries = [];
      }))
unfolding scan sha256_hash text_eq
sibling_forgotten = refl
