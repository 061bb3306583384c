-- ===== src/Scan/Existing.antt =====
-- The map `existing` of core/src/scan.rs against the table that it is loaded from.
use puppypeer.Prelude.{
  ◌≡◌, refl, sym, ap, ◌∙◌, inl, inr, ==_iff, Bool, true, false, Option, none, some, List, [], ◌∷◌,
  ◌++◌, any, retain, Text, codes, text_eq, text_eq_iff, if◌then◌else◌, Bool-cases, arith, All,
}
use puppypeer.Scan.{
  NodeId, FileLocation, FileRow, Host, or_else, find_location, put_location, collect, existing_of,
}
use puppypeer.Scan.Store.{has_key}
use puppypeer.Scan.Locate.{locate, Unique, any→locate_none}

pub find_location-put_location :
    (p : Text) (l : FileLocation) (ls : List FileLocation)
    → find_location p (put_location l ls)
      ≡ (if text_eq l.path p then some l else find_location p ls)
unfolding find_location put_location
find_location-put_location p l [] = refl
find_location-put_location p l (k ∷ ks) =
    let ih = find_location-put_location p l ks in
    elim (Bool-cases (text_eq k.path l.path)) [
      | inl e ↦ ground (arith, ap (λ t. text_eq t p) ((text_eq_iff k.path l.path).0 e), e)
      | inr e ↦ elim (Bool-cases (text_eq l.path p)) [
        | inl s ↦ ground (arith, ih, ap (λ t. text_eq k.path t) ((text_eq_iff l.path p).0 s), e, s)
        | inr s ↦ ground (arith, ih, e, s)
      ]
    ]

-- A location without the media type, which the table does not hold.
abbrev pub stripped : Option FileLocation → Option FileLocation
stripped none = none
stripped (some l) = some (record l { mime_type = none })

module _ (like : Text → Bool) where
  -- A row that the query does not find has another path than one that it finds.
  apart :
      (r : FileRow) (p : Text)
      → like r.location.path ≡ false
      → like p ≡ true
      → text_eq r.location.path p ≡ false
  apart r p e f = elim (Bool-cases (text_eq r.location.path p)) [
    | inl s ↦ absurd (ground (arith, ap like ((text_eq_iff r.location.path p).0 s), e, f))
    | inr s ↦ s
  ]

  unlike :
      (r : FileRow) (p : Text)
      → like r.location.path ≡ true
      → like p ≡ false
      → text_eq r.location.path p ≡ false
  unlike r p e f = elim (Bool-cases (text_eq r.location.path p)) [
    | inl s ↦ absurd (ground (arith, ap like ((text_eq_iff r.location.path p).0 s), e, f))
    | inr s ↦ s
  ]

  -- The map holds only paths that the query finds.
  collect_like :
      (p : Text) (rows : List FileRow) (ls : List FileLocation)
      → like p ≡ false
      → find_location p (collect (retain (λ r. like r.location.path) rows) ls) ≡ find_location p ls
  unfolding collect
  collect_like p [] ls f = refl
  collect_like p (r ∷ rs) ls f = elim (Bool-cases (like r.location.path)) [
    | inl e ↦
        let l : FileLocation = record (r.location) { mime_type = none } in
        ground (
          arith,
          collect_like p rs (put_location l ls) f,
          find_location-put_location p l ls,
          e,
          unlike r p e f,
        )
    | inr e ↦ ground (arith, collect_like p rs ls f, e)
  ]

module _ (like : Text → Bool) (node : NodeId) where
  -- A row that the query finds is the node's own.
  abbrev pub IsOwn : FileRow → Type 0
  IsOwn r = like r.location.path ≡ true → r.node_id ≡ node

  own_key :
      (r : FileRow) (p : Text)
      → r.node_id ≡ node
      → text_eq r.location.path p ≡ true
      → has_key node p r ≡ true
  own_key r p e s = ground (arith, (==_iff r.node_id node).1 e, s)

  -- Where the query finds a path that has one row at most, the map holds that row.
  collect_lem :
      (p : Text) (rows : List FileRow) (ls : List FileLocation)
      → like p ≡ true
      → All IsOwn rows
      → Unique rows
      → find_location p (collect (retain (λ r. like r.location.path) rows) ls)
        ≡ or_else (stripped (locate node p rows)) (find_location p ls)
  unfolding collect
  collect_lem p [] ls f own u = refl
  collect_lem p (r ∷ rs) ls f own u = elim (Bool-cases (like r.location.path)) [
    | inl e ↦
        let l : FileLocation = record (r.location) { mime_type = none } in
        let ih = collect_lem p rs (put_location l ls) f own.1 u.1 in
        let put = find_location-put_location p l ls in
        elim (Bool-cases (text_eq r.location.path p)) [
          | inl s ↦ ground (
            arith,
            ih,
            put,
            e,
            s,
            own_key r p (own.0 e) s,
            any→locate_none node p rs (
                ap (λ x. any (has_key x p) rs) (sym (own.0 e))
                ∙ ap (λ x. any (has_key r.node_id x) rs) (sym ((text_eq_iff r.location.path p).0 s))
                ∙ u.0),
          )
          | inr s ↦ ground (arith, ih, put, e, s)
        ]
    | inr e ↦ ground (arith, collect_lem p rs ls f own.1 u.1, e, apart like r p e f)
  ]

-- The pattern of the query.
abbrev pub pattern : Host → Text
pattern host = host.absolute_path ++ codes "%"

pub existing_of-known :
    (host : Host) (node : NodeId) (p : Text) (rows : List FileRow)
    → host.like (pattern host) p ≡ true
    → All (IsOwn (host.like (pattern host)) node) rows
    → Unique rows
    → find_location p (existing_of host rows) ≡ stripped (locate node p rows)
unfolding existing_of find_location
existing_of-known host node p rows f own u =
    collect_lem (host.like (pattern host)) node p rows [] f own u ∙ ground arith

pub existing_of-unlike :
    (host : Host) (p : Text) (rows : List FileRow)
    → host.like (pattern host) p ≡ false
    → find_location p (existing_of host rows) ≡ none
unfolding existing_of find_location
existing_of-unlike host p rows f = collect_like (host.like (pattern host)) p rows [] f
