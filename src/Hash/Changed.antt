-- ===== src/Hash/Changed.antt =====
-- Which files an incremental review looks at again.
use botto.Prelude.{
  String, ◌≡◌, refl, Bool, true, false, List, [], ◌∷◌, Option, none, some, String_discrete,
  string_key, contains, ite, arith, Option-cases, inl, inr,
}
use botto.Prelude.Maps.{lookup, IsMap, insert-IsMap}
use botto.Hash.{Utf8, djb2, changed_files, collect_hashes, compute_file_diff_hashes}

-- A file is reviewed again if it is there, and its cached hash is missing or another.
abbrev pub is_changed : Option String → Option String → Bool
is_changed none cached = false
is_changed (some hash) none = true
is_changed (some hash) (some cached_hash) = ite (String_discrete cached_hash hash) false true

contains-changed :
    (current cached : List (String × String)) (path : String)
    → IsMap current
    → contains (changed_files current cached) path
      ≡ is_changed (lookup path current) (lookup path cached)
unfolding changed_files lookup
contains-changed [] cached path h = refl
contains-changed ((p, hash) ∷ current) cached path h =
    let rest = contains-changed current cached path h.1 in
    elim (Option-cases (lookup p cached)) [
      | inl uncached ↦ rw (uncached, changed_files) (ground (arith, rest, uncached))
      | inr (c, found) ↦ rw (found, changed_files) (ground (arith, rest, found, h.0))
    ]

module _ (utf8 : Utf8) where
  collect_hashes-IsMap :
      (files hashes : List (String × String))
      → IsMap hashes
      → IsMap (collect_hashes utf8 files hashes)
  unfolding collect_hashes
  collect_hashes-IsMap [] hashes h = h
  collect_hashes-IsMap ((path, diff) ∷ files) hashes h =
      collect_hashes-IsMap files _ (insert-IsMap path (djb2 utf8 diff) hashes h)

  -- The files that are reviewed again are exactly those of the merge request whose hash is not in
  -- the cache, or is another there.
  pub contains-changed_files :
      (files : List (String × String)) (cached : List (String × String)) (path : String)
      → let current = compute_file_diff_hashes utf8 files in
        contains (changed_files current cached) path
        ≡ is_changed (lookup path current) (lookup path cached)
  contains-changed_files files cached path =
      contains-changed (compute_file_diff_hashes utf8 files) cached path
        (collect_hashes-IsMap files [] tt)
